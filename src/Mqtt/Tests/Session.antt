-- ===== src/Mqtt/Tests/Session.antt =====
-- Waiting lists and the network at concrete states.
use esp_qcloud.Prelude.{◌≢◌, refl, false, [], ◌∷◌, All}
use esp_qcloud.Mqtt.Client.{Client, accepted}
use esp_qcloud.Mqtt.WaitList.{mask_pub_info_from, mask_sub_info_from}
use esp_qcloud.Mqtt.Expiry.{pub_info_proc, sub_info_proc}
use esp_qcloud.Mqtt.Expiry.Laws.{acknowledged_gone}
use esp_qcloud.Mqtt.Tests.Clients.{quiet, idle, busy}

acknowledged_gone_example :
    All (λ n. n.pub_msg_id ≢ 3) (pub_info_proc (mask_pub_info_from 3 busy).1).list_pub_wait_ack
    × All (λ n. n.sub_msg_id ≢ 3) (sub_info_proc (mask_sub_info_from 3 busy).1).list_sub_wait_ack
acknowledged_gone_example = acknowledged_gone 3 busy refl

abbrev offline : Client
offline = record busy { is_connected = false }

abbrev slow : Client
slow = record idle { world = record quiet { clock = 50 ∷ 60 ∷ []; writes = accepted 2 ∷ [] } }

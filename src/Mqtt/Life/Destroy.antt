-- ===== src/Mqtt/Life/Destroy.antt =====
-- The end of a client.
use mathlib.Core.List.{append_assoc, append-nil}
use esp_qcloud.Prelude.{
  ℕ, ◌≡◌, refl, sym, ap, ◌∙◌, arith, Option, none, some, List, [], ◌∷◌, ◌++◌, map, All, replicate,
}
use esp_qcloud.Mqtt.Client.{
  Client, Output, to_subscriber, client_destroy, SubTopicHandle, notify_subscriber,
}
use esp_qcloud.Mqtt.Session.{mqtt_disconnect}
use esp_qcloud.Mqtt.Repeat.{reset_repeat_packet_id_buffer}
use esp_qcloud.Mqtt.Life.Resources.{Platform}
use esp_qcloud.Mqtt.Life.Init.{mqtt_fini}
use esp_qcloud.Mqtt.Life.{tell_destroyed, destroy}
use esp_qcloud.Mqtt.Life.Construct.{Leaves}

-- The event that a subscription's handler is given.
abbrev pub farewell : Option ℕ → ℕ → List Output
farewell none user_data = []
farewell (some f) user_data = to_subscriber f client_destroy user_data ∷ []

abbrev pub farewells : List SubTopicHandle → List Output
farewells [] = []
farewells (h ∷ hs) = farewell h.sub_event_handler h.handler_user_data ++ farewells hs

one_told :
    (f : Option ℕ) (user_data : ℕ) (c : Client)
    → (notify_subscriber f client_destroy user_data c).world.outputs
      ≡ c.world.outputs ++ farewell f user_data
one_told none user_data c = sym (append-nil c.world.outputs)
one_told (some f) user_data c = refl

same_handles :
    (f : Option ℕ) (user_data : ℕ) (c : Client)
    → (notify_subscriber f client_destroy user_data c).sub_handles ≡ c.sub_handles
same_handles none user_data c = refl
same_handles (some f) user_data c = refl

tells :
    (hs : List SubTopicHandle) (c : Client)
    → ((tell_destroyed hs c).world.outputs ≡ c.world.outputs ++ farewells hs)
      × ((tell_destroyed hs c).sub_handles ≡ c.sub_handles)
unfolding tell_destroyed
tells [] c = (sym (append-nil c.world.outputs), refl)
tells (h ∷ hs) c =
    let d = notify_subscriber h.sub_event_handler client_destroy h.handler_user_data c in
    let (told, same) = tells hs d in
    (
      told
          ∙ ap (λ os. os ++ farewells hs) (one_told h.sub_event_handler h.handler_user_data c)
          ∙ append_assoc c.world.outputs (farewell h.sub_event_handler h.handler_user_data)
              (farewells hs),
      same ∙ same_handles h.sub_event_handler h.handler_user_data c,
    )

same_ids :
    (f : Option ℕ) (user_data : ℕ) (c : Client)
    → (notify_subscriber f client_destroy user_data c).repeat_buf ≡ c.repeat_buf
same_ids none user_data c = refl
same_ids (some f) user_data c = refl

tells-same_ids :
    (hs : List SubTopicHandle) (c : Client) → (tell_destroyed hs c).repeat_buf ≡ c.repeat_buf
unfolding tell_destroyed
tells-same_ids [] c = refl
tells-same_ids (h ∷ hs) c =
    let d = notify_subscriber h.sub_event_handler client_destroy h.handler_user_data c in
    tells-same_ids hs d ∙ same_ids h.sub_event_handler h.handler_user_data c

freed :
    (hs : List SubTopicHandle)
    → All
        (λ h. h.topic_filter ≡ none)
        (map {A = SubTopicHandle} (λ h. record h { topic_filter = none }) hs)
freed [] = tt
freed (h ∷ hs) = (refl, freed hs)

-- The client was constructed on `m`, and the platform came to `n`. Behind what the disconnection sent,
-- whatever became of that, each subscription's handler is given its event, in the order of
-- the table and once; no topic filter is left; the ids of the received messages are all 0, while
-- their counter stays; and the platform holds what it held before the client.
pub destroy_lem :
    (m n : Platform) (made c : Client)
    → Leaves m (some made) n
    → let (r, e, q) = destroy c n in
      (e.world.outputs
        ≡ (mqtt_disconnect c).1.world.outputs ++ farewells (mqtt_disconnect c).1.sub_handles)
      × All (λ h. h.topic_filter ≡ none) e.sub_handles
      × (e.repeat_buf.ids ≡ replicate 50 0)
      × (e.repeat_buf.current_packet_id_cnt
          ≡ (mqtt_disconnect c).1.repeat_buf.current_packet_id_cnt)
      × Leaves m none q
unfolding destroy mqtt_fini reset_repeat_packet_id_buffer
destroy_lem m n made c (a, l, k, ready) =
    let d = (mqtt_disconnect c).1 in
    let (told, same) = tells d.sub_handles d in
    (
      told,
      freed (tell_destroyed d.sub_handles d).sub_handles,
      refl,
      ap (λ b. b.current_packet_id_cnt) (tells-same_ids d.sub_handles d),
      (omega arith, omega arith, omega arith),
    )

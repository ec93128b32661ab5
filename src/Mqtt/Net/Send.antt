-- ===== src/Mqtt/Net/Send.antt =====
-- What a packet that is sent puts on the network.
use esp_qcloud.Prelude.{
  ℕ, ◌+◌, ◌≤◌, ◌<◌, ◌≡◌, refl, arith, List, [], ◌∷◌, ◌++◌, length, length-take_le, length-drop,
  take, drop, ok,
}
use esp_qcloud.Mqtt.Client.{Client, to_network, accepted, output}
use esp_qcloud.Mqtt.Net.{send_mqtt_packet, send_loop, net_write, slice, is_expired}

-- The client after a reading of the clock.
abbrev pub ticked : List ℕ → Client → Client
ticked ts c = record c { world = record c.world { clock = ts } }

send_done :
    (ts : List ℕ) (len end_time sent : ℕ) (c : Client)
    → len ≤ sent
    → send_loop ts len end_time sent c ≡ (ok tt, c)
unfolding send_loop
send_done [] len end_time sent c h = refl
send_done (t ∷ ts) len end_time sent c h = ground arith

-- A round in which the network takes all that it is given.
send_round :
    (t : ℕ) (ts : List ℕ) (len end_time sent : ℕ) (c : Client)
    → sent < len
    → t ≤ end_time
    → sent + len ≤ length c.write_buf
    → c.world.writes ≡ []
    → send_loop (t ∷ ts) len end_time sent c
      ≡ send_loop ts len end_time
          (sent + len)
          (output (to_network (take len (drop sent c.write_buf))) (ticked ts c))
unfolding send_loop net_write is_expired
send_round t ts len end_time sent c more early fits writes =
    ground (arith, length-take_le len (drop sent c.write_buf), length-drop sent c.write_buf)

-- A packet shorter than the write buffer is sent whole, in one write of its bytes, if the timer
-- has not expired at the first test and the network takes what it is given.
pub send_mqtt_packet_whole :
    (len end_time t : ℕ) (ts : List ℕ) (c : Client)
    → 0 < len
    → len < length c.write_buf
    → c.world.clock ≡ t ∷ ts
    → t ≤ end_time
    → c.world.writes ≡ []
    → send_mqtt_packet len end_time c
      ≡ (ok tt, output (to_network (take len c.write_buf)) (ticked ts c))
unfolding send_mqtt_packet net_write is_expired
send_mqtt_packet_whole len end_time t ts c pos fits clock early writes = ground (
  arith,
  send_round t ts len end_time 0 c,
  send_done ts len end_time len (output (to_network (take len c.write_buf)) (ticked ts c)),
)

-- With a timer that has expired before the first write, nothing is sent, and the packet is
-- reported as sent.
pub send_mqtt_packet_expired :
    (len end_time t : ℕ) (ts : List ℕ) (c : Client)
    → 0 < len
    → len < length c.write_buf
    → c.world.clock ≡ t ∷ ts
    → end_time < t
    → send_mqtt_packet len end_time c ≡ (ok tt, ticked ts c)
unfolding send_mqtt_packet is_expired
send_mqtt_packet_expired len end_time t ts c pos fits clock late = unfold send_loop in ground arith

-- The client after the network took `n` of the bytes it was given first.
abbrev took : ℕ → ℕ → List ℕ → Client → Client
took n len ts c =
    output (to_network (take n (take len c.write_buf)))
      (record c { world = record c.world { clock = ts; writes = [] } })

send_part :
    (n t : ℕ) (ts : List ℕ) (len end_time : ℕ) (c : Client)
    → 0 < len
    → t ≤ end_time
    → len ≤ length c.write_buf
    → c.world.writes ≡ accepted n ∷ []
    → send_loop (t ∷ ts) len end_time 0 c ≡ send_loop ts len end_time n (took n len ts c)
unfolding send_loop net_write is_expired slice
send_part n t ts len end_time c pos early fits writes = ground arith

-- If the network takes `n` of the `len` bytes at first, the second write asks for `len` bytes from
-- the place that is reached, not for those that are left: `n` bytes from behind the packet follow
-- it. The function reports success.
pub send_mqtt_packet_partial :
    (n len end_time t u : ℕ) (ts : List ℕ) (c : Client)
    → 0 < n
    → n < len
    → n + len ≤ length c.write_buf
    → len < length c.write_buf
    → c.world.clock ≡ t ∷ u ∷ ts
    → t ≤ end_time
    → u ≤ end_time
    → c.world.writes ≡ accepted n ∷ []
    → (send_mqtt_packet len end_time c).0 ≡ ok tt
      × ((send_mqtt_packet len end_time c).1.world.outputs
          ≡ (c.world.outputs ++ (to_network (take n (take len c.write_buf)) ∷ []))
            ++ (to_network (take len (drop n c.write_buf)) ∷ []))
unfolding send_mqtt_packet
send_mqtt_packet_partial n len end_time t u ts c pos part fits small clock early again writes =
    ground (
      arith,
      send_part n t (u ∷ ts) len end_time c,
      send_round u ts len end_time n (took n len (u ∷ ts) c),
      send_done ts len end_time (n + len)
          (output (to_network (take len (drop n c.write_buf))) (ticked ts (took n len (u ∷ ts) c))),
    )

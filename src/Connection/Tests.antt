-- ===== src/Connection/Tests.antt =====
-- Runs of the connection with three networks.
use astro_photo_power_box.Prelude.{suc, ◌%◌, ◌≡◌, true, List, [], ◌∷◌, pos, arith}
use astro_photo_power_box.Gfx.Memory.{memory_gfx}
use astro_photo_power_box.Connection.{wifi_begin, start}
use astro_photo_power_box.Connection.Events.{
  Event, got_ip_event, disconnected_event, loop_call, attempts, attempts_lem,
}

abbrev evening : List Event
evening =
    loop_call true true 10001 10002
    ∷ got_ip_event 12000 12001 "192.168.1.2"
    ∷ loop_call true true 12010 12011
    ∷ disconnected_event 90000 90001
    ∷ loop_call true true 100500 100501
    ∷ []

attempts_lem_example :
    let c = attempts 3 (suc 4) 20000 start in
    (c.requests ≡ wifi_begin (pos (4 % 3)) ∷ (attempts 3 4 20000 start).requests)
    × (c.auth_ndx ≡ pos (4 % 3))
attempts_lem_example = attempts_lem 3 4 20000 (omega arith)

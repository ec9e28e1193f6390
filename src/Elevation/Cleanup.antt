-- ===== src/Elevation/Cleanup.antt =====
-- What _cleanup_expired of gateway/service/elevation_service.py leaves behind.
use nereus_door_loong_magic.Common.{ℕ, ◌+◌, ◌&&◌, Option, none, some, ltb, if◌then◌else◌}
use nereus_door_loong_magic.Elevation.{Entry, Token, token_is_expired}
use nereus_door_loong_magic.Elevation.Codes.{is_closed, expire_if_open}

-- What the clean-up at `now` leaves of a token, and of a code.
abbrev pub token_left : ℕ → Option Token → Option Token
token_left now none = none
token_left now (some t) = if token_is_expired t now then none else some t

abbrev pub entry_left : ℕ → Option Entry → Option Entry
entry_left now none = none
entry_left now (some e) =
    let e' = expire_if_open now e in
    if is_closed e'.status && ltb (e.requested_at + 86400) now then none else some e'

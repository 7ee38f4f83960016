-- ===== src/Core/Cache/Examples.antt =====
-- Frames of core/cache.py, with texts for schemas.
use nps_sdk_python.Prelude.{◌≡◌, refl, String, Bool, true, some, [], ◌∷◌, ok, string_eq}
use nps_sdk_python.Prelude.Dict
use nps_sdk_python.Prelude.Dict.{Dict}
use nps_sdk_python.Core.Cache.{AnchorFrame, Entry, set, get}

abbrev frame_of : String → AnchorFrame String
frame_of schema = record { anchor_id = "sha256:0"; schema = schema; ttl = 5 }

abbrev store : Dict String (Entry String)
store = ("sha256:0", record { frame = frame_of "old"; expires_at = 10 }) ∷ []

abbrev identity : String → String
identity s = s

abbrev always : String → Bool
always s = true

-- At the instant of its expiry a frame is still served, and can be replaced by one with another schema.
boundary_test :
    ((get identity always 10 "sha256:0" store).1 ≡ some (frame_of "old"))
    × (set identity always 10 10 (frame_of "new") store
        ≡ ok (("sha256:0", record { frame = frame_of "new"; expires_at = 15 }) ∷ [], "sha256:0"))
unfolding get set Dict.get Dict.put
boundary_test = (refl, refl)

-- ===== src/Listeners/Forms.antt =====
-- The forms of a specification.
use bev_search.Common.{◌<◌, ◌≢◌, length, All}
use bev_search.CString.{Bytes}
use bev_search.Plist.{Plist}

abbrev pub NoColon : Bytes → Type 0
NoColon = All (λ c. c ≢ b':')

-- A field of a specification.
pub record IsField (s : Bytes) : Type 0 where
  pub colon : NoColon s
  pub some_bytes : 0 < length s

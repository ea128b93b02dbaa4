-- ===== src/Ntlm/Request.antt =====
-- `ntlm_request`: the first message.
pub mod Layout
use bev_search.Common.{
  ℕ, zero, suc, ◌+◌, Bool, ◌&&◌, not, Option, none, some, List, [], ◌∷◌, ◌++◌, ◌==◌, if◌then◌else◌,
  length, replicate,
}
use mathlib.Core.Option
use bev_search.CString.{Bytes, codes}
use bev_search.Strings.{c_str, uppercase}
use bev_search.Auth.{Auth}
use bev_search.Ntlm.Buffer.{le16, le32, put_all}

abbrev pub ntlm_bufsize : ℕ
ntlm_bufsize = 1024

-- The flags: those of the configuration, or those of the kinds of hashes; `none` if no hash is
-- chosen.
unfoldable pub request_flags : Auth → Option ℕ
request_flags creds =
    if not (creds.flags == 0)
    then some creds.flags
    else if not (creds.hashntlm2 == 0)
    then some 0xa208b205
    else if creds.hashnt == 2
    then some 0xa208b207
    else if not (creds.hashnt == 0) && not (creds.hashlm == 0)
    then some 0xb207
    else if not (creds.hashnt == 0)
    then some 0xb205
    else if not (creds.hashlm == 0)
    then some 0xb206
    else none

-- The writes into the buffer, by their places.
abbrev pub request_fields : Auth → ℕ → List (ℕ × Bytes)
request_fields creds flags =
    let dlen = length (c_str creds.domain) in
    let hlen = length (c_str creds.workstation) in
    (0, codes "NTLMSSP" ++ 0 ∷ [])
    ∷ (8, le32 1)
    ∷ (12, le32 flags)
    ∷ (16, le16 dlen)
    ∷ (18, le16 dlen)
    ∷ (20, le32 (32 + hlen))
    ∷ (24, le16 hlen)
    ∷ (26, le16 hlen)
    ∷ (28, le32 32)
    ∷ (32, uppercase (c_str creds.workstation))
    ∷ (32 + hlen, uppercase (c_str creds.domain))
    ∷ []

-- The buffer and the length that is returned: 0 and no buffer, when no hash is chosen.
pub record Message : Type 0 where
  pub buf : Option Bytes
  pub len : ℕ

-- With the flags that were chosen; `none` is a write behind the end of the buffer.
abbrev pub request_with : Auth → Option ℕ → Option Message
request_with creds none = some (record { buf = none; len = 0 })
request_with creds (some flags) =
    Option.map
      (λ buf. record {
        buf = some buf;
        len = 32 + length (c_str creds.domain) + length (c_str creds.workstation);
      })
      (put_all (request_fields creds flags) (replicate ntlm_bufsize 0))

unfoldable pub ntlm_request : Auth → Option Message
ntlm_request creds = request_with creds (request_flags creds)

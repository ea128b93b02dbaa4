-- ===== src/Ntlm/Response.antt =====
-- `ntlm_response`: the third message, from the challenge of the server. `none` is a read or a write
-- outside of the memory.
pub mod Sizes
pub mod Layout
pub mod Overflow
pub mod Outcome
use bev_search.Common.{
  ℕ, ◌+◌, Bool, ◌&&◌, ◌||◌, not, Option, none, some, List, [], ◌∷◌, ◌++◌, ◌==◌, if◌then◌else◌,
  length, replicate, drop,
}
use mathlib.Core.Option
use bev_search.CString.{Bytes, codes}
use bev_search.Strings.{c_str, uppercase, unicode}
use bev_search.Auth.{Auth, ◌>>=◌}
use bev_search.Ntlm.Buffer.{le16, le32, slice, put_all}
use bev_search.Ntlm.Keys.{
  Crypto, Moment, Hashes, ntlm_calc_resp, ntlm2_calc_resp, ntlm2sr_calc_rest,
}
use bev_search.Ntlm.Request.{ntlm_bufsize, Message}
use bev_search.Ntlm.Target.{TargetInfo, target_info}

abbrev pub is_set : ℕ → Bool
is_set n = not (n == 0)

-- The responses to the challenge, each under its test; a later one takes the place of an earlier one.
module _ (crypto : Crypto) (moment : Moment) (creds : Auth) (challenge : Bytes) where
  unfoldable pub with_ntlm2 : TargetInfo → Hashes → Option Hashes
  with_ntlm2 t hashes =
      if is_set creds.hashntlm2
      then ntlm2_calc_resp crypto moment creds.passntlm2 challenge t.tbofs t.tblen
      else some hashes

  unfoldable pub with_ntlm2sr : Hashes → Option Hashes
  with_ntlm2sr hashes =
      if creds.hashnt == 2
      then ntlm2sr_calc_rest crypto moment creds.passnt challenge
      else some hashes

  unfoldable pub with_nt : Hashes → Option Hashes
  with_nt hashes =
      if creds.hashnt == 1
      then Option.map (λ nthash. record hashes { nthash = nthash })
          (ntlm_calc_resp crypto creds.passnt (drop 24 challenge))
      else some hashes

  unfoldable pub with_lm : Hashes → Option Hashes
  with_lm hashes =
      if is_set creds.hashlm
      then Option.map (λ lmhash. record hashes { lmhash = lmhash })
          (ntlm_calc_resp crypto creds.passlm (drop 24 challenge))
      else some hashes

  unfoldable pub hashes_of : TargetInfo → Option Hashes
  hashes_of t = do
    ntlm2 ← with_ntlm2 t (record { nthash = []; lmhash = [] })
    ntlm2sr ← with_ntlm2sr ntlm2
    nt ← with_nt ntlm2sr
    with_lm nt

-- A name as it is sent, and its length.
pub record Name : Type 0 where
  pub text : Bytes
  pub len : ℕ

abbrev pub wide : Bytes → Name
wide s = record { text = (unicode s).0; len = (unicode s).1 }

abbrev pub narrow : Bytes → Name
narrow s = record { text = uppercase s; len = length s }

pub record Names : Type 0 where
  pub domain : Name
  pub user : Name
  pub host : Name

-- In 16 bits a character if a hash other than that of the LAN manager is sent; the user keeps its
-- case then.
unfoldable pub names_of : Auth → Names
names_of creds =
    if is_set creds.hashnt || is_set creds.hashntlm2
    then record {
      domain = wide (uppercase (c_str creds.domain));
      user = wide (c_str creds.user);
      host = wide (uppercase (c_str creds.workstation));
    }
    else record {
      domain = narrow (c_str creds.domain);
      user = narrow (c_str creds.user);
      host = narrow (c_str creds.workstation);
    }

abbrev pub names_end : Names → ℕ
names_end n = 64 + n.domain.len + n.user.len + n.host.len

abbrev pub total : Names → Hashes → ℕ
total n hashes = names_end n + length hashes.lmhash + length hashes.nthash

-- The fixed part up to the flags.
abbrev pub head_fields : Names → Hashes → List (ℕ × Bytes)
head_fields n hashes =
    (0, codes "NTLMSSP" ++ 0 ∷ [])
    ∷ (8, le32 3)
    ∷ (12, le16 (length hashes.lmhash))
    ∷ (14, le16 (length hashes.lmhash))
    ∷ (16, le32 (names_end n))
    ∷ (20, le16 (length hashes.nthash))
    ∷ (22, le16 (length hashes.nthash))
    ∷ (24, le32 (names_end n + length hashes.lmhash))
    ∷ (28, le16 n.domain.len)
    ∷ (30, le16 n.domain.len)
    ∷ (32, le32 64)
    ∷ (36, le16 n.user.len)
    ∷ (38, le16 n.user.len)
    ∷ (40, le32 (64 + n.domain.len))
    ∷ (44, le16 n.host.len)
    ∷ (46, le16 n.host.len)
    ∷ (48, le32 (64 + n.domain.len + n.user.len))
    ∷ (52, le16 0)
    ∷ (54, le16 0)
    ∷ (56, le16 (total n hashes))
    ∷ []

-- The flags of the challenge, the names and one response; the other stands 24 bytes behind it.
abbrev pub tail_fields : Names → Hashes → Bytes → List (ℕ × Bytes)
tail_fields n hashes flags =
    (60, flags)
    ∷ (64, n.domain.text)
    ∷ (64 + n.domain.len, n.user.text)
    ∷ (64 + n.domain.len + n.user.len, n.host.text)
    ∷ (names_end n, hashes.lmhash)
    ∷ []

abbrev pub last_field : Names → Hashes → List (ℕ × Bytes)
last_field n hashes = (names_end n + 24, hashes.nthash) ∷ []

unfoldable pub message_of : Names → Hashes → Bytes → Option Message
message_of n hashes flags =
    Option.map (λ buf. record { buf = some buf; len = total n hashes })
      (put_all (head_fields n hashes ++ (tail_fields n hashes flags ++ last_field n hashes))
        (replicate ntlm_bufsize 0))

module _ (crypto : Crypto) (moment : Moment) where
  -- Behind the walk over the target information.
  unfoldable pub respond : Bytes → Auth → TargetInfo → Option Message
  respond challenge creds t =
      if is_set creds.hashntlm2 && t.tblen == 0
      then some (record { buf = none; len = 0 })
      else (hashes_of crypto moment creds challenge t >>= λ hashes.
          slice challenge 20 4 >>= λ flags. message_of (names_of creds) hashes flags)

  unfoldable pub ntlm_response : Bytes → ℕ → Auth → Option Message
  ntlm_response challenge challen creds = target_info challenge challen >>= respond challenge creds

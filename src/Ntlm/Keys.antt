-- ===== src/Ntlm/Keys.antt =====
-- The keys of DES, the responses to a challenge and the hashes of passwords in cntlm-0.92.3/ntlm.c. The
-- ciphers and digests of cntlm-0.92.3/xcrypt.c, the random number and the clock are parameters. `none`
-- is a read outside of the memory.
pub mod Fields
use bev_search.Common.{
  ℕ, ◌+◌, ◌-◌, ◌*◌, ◌/◌, ◌%◌, ◌^◌, ◌≡◌, Option, none, some, List, [], ◌∷◌, ◌++◌, length, take,
  replicate, bit_and, bit_or,
}
use bev_search.CString.{Bytes}
use bev_search.Strings.{uppercase, unicode}
use bev_search.Auth.{◌>>=◌}
use bev_search.Ntlm.Buffer.{le32, le64, slice}

-- `gl_des_ecb_encrypt` under a key of eight bytes, `md4_buffer`, `md5_buffer`, and `hmac_md5`.
pub record Crypto : Type 0 where
  pub des : Bytes → Bytes → Bytes
  pub md4 : Bytes → Bytes
  pub md5 : Bytes → Bytes
  pub hmac_md5 : Bytes → Bytes → Bytes

-- The results of `random`, as the eight bytes of a nonce, and of `time`.
pub record Moment : Type 0 where
  pub nonce : Bytes
  pub time : ℕ

-- What `ntlm2_calc_resp` and `ntlm2sr_calc_rest` compute; a response that is not there is empty.
pub record Hashes : Type 0 where
  pub nthash : Bytes
  pub lmhash : Bytes

-- `((src[i] << (8-k)) & 0xff) | (src[i+1] >> k)`
unfoldable pub key_byte : ℕ → ℕ → ℕ → ℕ
key_byte k a b = bit_or (bit_and (a * 2 ^ (8 - k)) 0xff) (b / 2 ^ k)

-- The key of eight bytes that seven bytes are spread over.
unfoldable pub key_of : Bytes → Option Bytes
unfolding key_byte
key_of (a ∷ b ∷ c ∷ d ∷ e ∷ f ∷ g ∷ []) = some (
    a
    ∷ key_byte 1 a b
    ∷ key_byte 2 b c
    ∷ key_byte 3 c d
    ∷ key_byte 4 d e
    ∷ key_byte 5 e f
    ∷ key_byte 6 f g
    ∷ bit_and (g * 2) 0xff
    ∷ [])
key_of other = none

-- `ntlm_set_key`
unfoldable pub ntlm_set_key : Bytes → ℕ → Option Bytes
ntlm_set_key src at = slice src at 7 >>= key_of

module _ (crypto : Crypto) where
  unfoldable pub ntlm_calc_resp : Bytes → Bytes → Option Bytes
  ntlm_calc_resp keys challenge = do
    block ← slice challenge 0 8
    first ← ntlm_set_key keys 0
    second ← ntlm_set_key keys 7
    third ← ntlm_set_key keys 14
    some (crypto.des first block ++ (crypto.des second block ++ crypto.des third block))

  -- 100 ns since the year 1601, in 64 bits.
  unfoldable pub timestamp : ℕ → ℕ
  timestamp time = (time + 11644473600) * 10000000 % 2 ^ 64

  unfoldable pub blob_of : Moment → Bytes → Bytes
  blob_of moment info =
      le32 0x101
      ++ (le32 0
          ++ (le64 (timestamp moment.time) ++ (moment.nonce ++ (le32 0 ++ (info ++ le32 0)))))

  unfoldable pub ntlm2_calc_resp : Moment → Bytes → Bytes → ℕ → ℕ → Option Hashes
  ntlm2_calc_resp moment passnt2 challenge tbofs tblen = do
    info ← slice challenge tbofs tblen
    key ← slice passnt2 0 16
    server ← slice challenge 24 8
    some (record {
      nthash = crypto.hmac_md5 key (server ++ blob_of moment info) ++ blob_of moment info;
      lmhash = crypto.hmac_md5 key (server ++ moment.nonce) ++ moment.nonce;
    })

  unfoldable pub ntlm2sr_calc_rest : Moment → Bytes → Bytes → Option Hashes
  ntlm2sr_calc_rest moment passnt challenge = do
    server ← slice challenge 24 8
    nthash ← ntlm_calc_resp passnt (crypto.md5 (server ++ moment.nonce))
    some (record { nthash = nthash; lmhash = moment.nonce ++ replicate 16 0 })

  -- The first fourteen bytes in upper case, in a zeroed buffer, are the keys for a constant text.
  unfoldable pub ntlm_hash_lm_password : Bytes → Option Bytes
  ntlm_hash_lm_password password =
      let pass = uppercase (take 14 password) ++ replicate (15 - length (take 14 password)) 0 in
      let magic = 0x4b ∷ 0x47 ∷ 0x53 ∷ 0x21 ∷ 0x40 ∷ 0x23 ∷ 0x24 ∷ 0x25 ∷ [] in
      ntlm_set_key pass 0 >>= λ first. ntlm_set_key pass 7 >>= λ second.
      some (crypto.des first magic ++ (crypto.des second magic ++ replicate 6 0))

  unfoldable pub ntlm_hash_nt_password : Bytes → Bytes
  ntlm_hash_nt_password password = crypto.md4 (unicode password).0 ++ replicate 6 0

  unfoldable pub ntlm2_hash_password : Bytes → Bytes → Bytes → Bytes
  ntlm2_hash_password username domain password =
      crypto.hmac_md5 (take 16 (ntlm_hash_nt_password password))
        (unicode (uppercase (username ++ domain))).0
      ++ 0 ∷ []

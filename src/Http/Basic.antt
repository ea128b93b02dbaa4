-- ===== src/Http/Basic.antt =====
-- `http_parse_basic`: the credentials that a client sends. The ciphers and digests are a parameter;
-- `none` is an access outside of a buffer.
pub mod Login
pub mod Composed
use bev_search.Common.{
  ℕ, ◌-◌, Bool, Option, none, some, [], ◌∷◌, ltb, ◌==◌, if◌then◌else◌, length, take, drop,
}
use bev_search.CString.{Bytes, codes, strchr}
use bev_search.Strings.{c_str, strlcpy}
use bev_search.Hlist
use bev_search.Hlist.{Hlist}
use bev_search.Base64.{from_base64}
use bev_search.Auth.{Auth, ◌>>=◌, minibuf_size}
use bev_search.Ntlm.Buffer.{overwrite}
use bev_search.Ntlm.Keys.{Crypto, ntlm_hash_lm_password, ntlm_hash_nt_password, ntlm2_hash_password}
use bev_search.Http.Header.{skip_spaces, behind_first}

-- The results 0, -1 and 1, the last with the credentials.
pub data Basic : Type 0 where
  absent invalid : Basic
  given : Auth → Basic

abbrev pub backslash : ℕ
backslash = 92

-- `auth_strcpy` into a buffer.
unfoldable pub auth_strcpy : Bytes → Bytes → Option Bytes
auth_strcpy var value = strlcpy var value minibuf_size >>= λ r. some r.0

-- The text behind the scheme and the spaces after it.
unfoldable pub payload : Bytes → Bytes
payload tmp = if ltb 5 (length tmp) then skip_spaces (drop 6 tmp) else drop 5 tmp

-- The user, and the domain before `\`; the last argument is `strchr(buf, '\\')`.
unfoldable pub store_names : Auth → Bytes → Option Bytes → Option Auth
store_names tcreds buf none = do
  user ← auth_strcpy tcreds.user buf
  some (record tcreds { user = user })
store_names tcreds buf (some dom) = do
  domain ← auth_strcpy tcreds.domain (take (length buf - length dom) buf)
  user ← auth_strcpy tcreds.user (behind_first dom)
  some (record tcreds { user = user; domain = domain })

-- The hashes that are asked for.
module _ (crypto : Crypto) (password : Bytes) where
  unfoldable pub store_ntlm2 : Auth → Option Auth
  store_ntlm2 tcreds =
      let tmp = ntlm2_hash_password crypto (c_str tcreds.user) (c_str tcreds.domain) password in
      if tcreds.hashntlm2 == 0
      then some tcreds
      else (overwrite (take 16 tmp) tcreds.passntlm2 >>= λ passntlm2.
          some (record tcreds { passntlm2 = passntlm2 }))

  unfoldable pub store_nt : Auth → Option Auth
  store_nt tcreds =
      if tcreds.hashnt == 0
      then some tcreds
      else (overwrite (take 21 (ntlm_hash_nt_password crypto password)) tcreds.passnt >>= λ passnt.
          some (record tcreds { passnt = passnt }))

  unfoldable pub store_lm : Auth → Option Auth
  store_lm tcreds =
      if tcreds.hashlm == 0
      then some tcreds
      else (ntlm_hash_lm_password crypto password >>= λ tmp.
          overwrite (take 21 tmp) tcreds.passlm >>= λ passlm.
          some (record tcreds { passlm = passlm }))

  unfoldable pub store_hashes : Auth → Option Auth
  store_hashes tcreds = store_ntlm2 tcreds >>= λ a. store_nt a >>= store_lm

module _ (crypto : Crypto) where
  -- The decoded text; the last argument is `strchr(buf, ':')`.
  unfoldable pub store_login : Auth → Bytes → Option Bytes → Option Basic
  store_login tcreds buf none = some invalid
  store_login tcreds buf (some pos) =
      let name = take (length buf - length pos) buf in
      store_names tcreds name (strchr name backslash) >>= λ named.
      store_hashes crypto (behind_first pos) named >>= λ done. some (given done)

  unfoldable pub http_parse_basic : Hlist → Bytes → Auth → Option Basic
  http_parse_basic headers header tcreds =
      let found = Hlist.get headers header >>= λ tmp.
      let buf = c_str (from_base64 (payload tmp)).out in store_login tcreds buf (strchr buf b':') in
      if Hlist.subcmp headers header (codes "basic") then found else some absent

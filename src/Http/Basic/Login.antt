-- ===== src/Http/Basic/Login.antt =====
-- What `http_parse_basic` makes of a header that a client composed.
use bev_search.Common.{
  ℕ, zero, suc, ◌-◌, ◌/◌, ◌≤◌, ◌<◌, ◌≡◌, ◌≢◌, refl, sym, ap, ◌∙◌, arith, true, some, none, [], ◌∷◌,
  ◌++◌, ◌==◌, if◌then◌else◌, length, take, drop, replicate, All, All-append, All-take,
  length-append, length-take, length-drop, min, length-replicate, take-append, Bool-cases, inl, inr,
  eq_other, lt→ltb, take_all,
}
use mathlib.Core.Option
use bev_search.CString.{Bytes, codes, strchr, begins, strstr, to_lower, to_upper}
use bev_search.Strings.{c_str, uppercase}
use bev_search.Strings.Copy.{NulFree, copied, strlcpy_fits}
use bev_search.Hlist.{contains_nocase}
use bev_search.Base64.{to_base64, base64, digit1, value}
use bev_search.Base64.Fields.{digits_as_sums}
use bev_search.Base64.RoundTrip.{Octets, to_base64-one, to_base64-two, to_base64-group}
use bev_search.Auth.{Auth, minibuf_size}
use bev_search.Ntlm.Buffer.{overwrite}
use bev_search.Ntlm.Keys.{Crypto, ntlm_hash_lm_password, ntlm_hash_nt_password, ntlm2_hash_password}
use bev_search.Ntlm.Request.Layout.{length-uppercase}
use bev_search.Ntlm.Keys.Fields.{ntlm_set_key-IsKeyOf}
use bev_search.Http.Header.{skip_spaces}
use bev_search.Http.Basic.{auth_strcpy, payload, store_ntlm2, store_nt, store_lm}

-- `strchr` at a byte that the text before it does not have.
abbrev pub Without : ℕ → Bytes → Type 0
Without d = All (λ c. c ≢ d)

pub strchr-append :
    (d : ℕ) (s rest : Bytes) → Without d s → strchr (s ++ d ∷ rest) d ≡ some (d ∷ rest)
unfolding strchr
strchr-append d [] rest h = ground arith
strchr-append d (c ∷ s) rest (hc, h) = rw (eq_other c d hc) (strchr-append d s rest h)

pub strchr-none : (d : ℕ) (s : Bytes) → Without d s → strchr s d ≡ none
unfolding strchr
strchr-none d [] h = refl
strchr-none d (c ∷ s) (hc, h) = rw (eq_other c d hc) (strchr-none d s h)

-- The text before what `strchr` found.
pub before_found :
    (d : ℕ) (s rest : Bytes) → take (length (s ++ d ∷ rest) - length (d ∷ rest)) (s ++ d ∷ rest) ≡ s
before_found d s rest =
    take-append (length (s ++ d ∷ rest) - length (d ∷ rest)) s (d ∷ rest)
      (omega (arith, length-append s (d ∷ rest)))

pub overwrite_fits :
    (s buf : Bytes) → length s ≤ length buf → overwrite s buf ≡ some (s ++ drop (length s) buf)
unfolding overwrite
overwrite_fits [] buf h = refl
overwrite_fits (c ∷ s) [] h = absurd (omega arith)
overwrite_fits (c ∷ s) (x ∷ buf) h =
    ap (Option.map (λ t. c ∷ t)) (overwrite_fits s buf (omega arith))

pub auth_strcpy_fits :
    (var value : Bytes)
    → length var ≡ minibuf_size
    → NulFree value
    → length value < minibuf_size
    → (b : Bytes) × (auth_strcpy var value ≡ some b) × (c_str b ≡ value) × (length b ≡ minibuf_size)
unfolding auth_strcpy
auth_strcpy_fits var value size text short =
    let fits = strlcpy_fits var value 49 (omega (arith, size)) text in
    (
      copied 49 var value,
      rw fits.0 refl,
      fits.1 ∙ take_all 49 value (omega (arith, short)),
      omega (
        arith,
        size,
        short,
        length-append (take 49 value) (0 ∷ drop (suc (min 49 (length value))) var),
        length-take 49 value,
        length-drop (suc (min 49 (length value))) var,
      ),
    )

-- The first digit of an encoding is no space.
digit_apart : (d : ℕ) → d < 64 → base64 d ≢ 32
unfolding base64
digit_apart d h e = ground (arith, h, e)

digit1_apart : (a : ℕ) → a < 256 → base64 (digit1 a) ≢ 32
digit1_apart a h e =
    let d = (digits_as_sums a 0 0 h (omega arith) (omega arith)).0 in
    digit_apart (a / 4) (omega (arith, h)) (ap base64 (sym d) ∙ e)

first_digit :
    (s : Bytes) (olen : ℕ)
    → s ≢ []
    → Octets s
    → 10 < olen
    → (c : ℕ) × (rest : Bytes) × (to_base64 s olen ≡ c ∷ rest) × (c ≢ 32)
first_digit [] olen h octets room = absurd (h refl)
first_digit (a ∷ []) olen h octets room =
    (base64 (digit1 a), _, to_base64-one a olen (omega arith), digit1_apart a octets.0)
first_digit (a ∷ b ∷ []) olen h octets room =
    (base64 (digit1 a), _, to_base64-two a b olen (omega arith), digit1_apart a octets.0)
first_digit (a ∷ b ∷ c ∷ s) olen h octets room =
    (base64 (digit1 a), _, to_base64-group a b c s olen room, digit1_apart a octets.0)

pub scheme : Bytes
scheme = codes "Basic "

skip_nothing : (c : ℕ) (s : Bytes) → c ≢ 32 → skip_spaces (c ∷ s) ≡ c ∷ s
unfolding skip_spaces
skip_nothing c s h = rw (eq_other c 32 h) refl

-- The encoding is found behind the scheme.
pub payload-scheme :
    (s : Bytes) (olen : ℕ)
    → s ≢ []
    → Octets s
    → 10 < olen
    → payload (scheme ++ to_base64 s olen) ≡ to_base64 s olen
unfolding payload scheme
payload-scheme s olen h octets room =
    let d = first_digit s olen h octets room in
    let skips : skip_spaces (d.0 ∷ d.1) ≡ d.0 ∷ d.1 = skip_nothing d.0 d.1 d.3 in
    rw d.2 (
      ap (λ b. if b then skip_spaces (d.0 ∷ d.1) else 32 ∷ d.0 ∷ d.1)
        (lt→ltb 5 (length (scheme ++ d.0 ∷ d.1)) (omega arith))
      ∙ skips)

pub is_basic : (s : Bytes) → contains_nocase (scheme ++ s) (codes "basic") ≡ true
unfolding contains_nocase scheme begins strstr to_lower
is_basic s = refl

-- Hashes over the beginning of their buffers.
abbrev pub stored : Bytes → Bytes → Bytes
stored hash buf = hash ++ drop (length hash) buf

store_fits :
    (n : ℕ) (hash buf : Bytes)
    → n ≤ minibuf_size
    → length buf ≡ minibuf_size
    → overwrite (take n hash) buf ≡ some (stored (take n hash) buf)
store_fits n hash buf h size =
    overwrite_fits (take n hash) buf (omega (arith, size, h, length-take n hash))

upper-Octets : (s : Bytes) → Octets s → Octets (uppercase s)
unfolding to_upper
upper-Octets [] h = tt
upper-Octets (c ∷ s) (hc, h) = (ground (arith, hc), upper-Octets s h)

zeros-Octets : (n : ℕ) → Octets (replicate n 0)
zeros-Octets zero = tt
zeros-Octets (suc n) = (omega arith, zeros-Octets n)

-- The hash of the LAN manager reads inside of its buffer.
pub lm_there :
    (crypto : Crypto) (password : Bytes)
    → Octets password
    → (h : Bytes) × (ntlm_hash_lm_password crypto password ≡ some h)
unfolding ntlm_hash_lm_password
lm_there crypto password octets =
    let cut = take 14 password in
    let pass = uppercase cut ++ replicate (15 - length cut) 0 in
    let size : length pass ≡ 15 = omega (
      arith,
      length-append (uppercase cut) (replicate (15 - length cut) 0),
      length-uppercase cut,
      length-take 14 password,
      length-replicate {A = ℕ} (15 - length cut) 0,
    ) in
    let bytes : Octets pass =
      All-append (λ c. c < 256) (uppercase cut) (replicate (15 - length cut) 0)
        (upper-Octets cut (All-take (λ c. c < 256) 14 password octets))
        (zeros-Octets (15 - length cut)) in
    let first = ntlm_set_key-IsKeyOf pass 0 bytes (omega (arith, size)) in
    let second = ntlm_set_key-IsKeyOf pass 7 bytes (omega (arith, size)) in
    let magic : Bytes = 0x4b ∷ 0x47 ∷ 0x53 ∷ 0x21 ∷ 0x40 ∷ 0x23 ∷ 0x24 ∷ 0x25 ∷ [] in
    (
      crypto.des first.0 magic ++ (crypto.des second.0 magic ++ replicate 6 0),
      rw (first.1, second.1) refl,
    )

-- Credentials whose buffers have their fixed size.
pub record HasBuffers (a : Auth) : Type 0 where
  pub user : length a.user ≡ minibuf_size
  pub domain : length a.domain ≡ minibuf_size
  pub passntlm2 : length a.passntlm2 ≡ minibuf_size
  pub passnt : length a.passnt ≡ minibuf_size
  pub passlm : length a.passlm ≡ minibuf_size

-- What is stored for a user, a domain and a password: the names, and each hash that is asked for.
pub record IsLogin (crypto : Crypto) (before : Auth) (user domain password : Bytes) (a : Auth)
    : Type 0 where
  pub name : c_str a.user ≡ user
  pub realm : c_str a.domain ≡ domain
  pub ntlm2 : a.passntlm2 ≡ (
      if before.hashntlm2 == 0
      then before.passntlm2
      else stored (take 16 (ntlm2_hash_password crypto user domain password)) before.passntlm2)
  pub nt : a.passnt ≡ (
      if before.hashnt == 0
      then before.passnt
      else stored (take 21 (ntlm_hash_nt_password crypto password)) before.passnt)
  pub lm :
      (h : Bytes) × (ntlm_hash_lm_password crypto password ≡ some h)
      × (a.passlm
          ≡ (if before.hashlm == 0 then before.passlm else stored (take 21 h) before.passlm))

module _ (crypto : Crypto) (password : Bytes) where
  pub ntlm2_step :
      (a : Auth)
      → length a.passntlm2 ≡ minibuf_size
      → store_ntlm2 crypto password a
        ≡ some (record a {
          passntlm2 =
              if a.hashntlm2 == 0
              then a.passntlm2
              else stored
                  (take 16 (ntlm2_hash_password crypto (c_str a.user) (c_str a.domain) password))
                  a.passntlm2;
        })
  unfolding store_ntlm2
  ntlm2_step a size =
      let fits =
        store_fits 16 (ntlm2_hash_password crypto (c_str a.user) (c_str a.domain) password)
          a.passntlm2 (omega arith) size in
      elim (Bool-cases (a.hashntlm2 == 0)) [ inl off ↦ rw off refl | inr on ↦ rw (on, fits) refl ]

  pub nt_step :
      (a : Auth)
      → length a.passnt ≡ minibuf_size
      → store_nt crypto password a
        ≡ some (record a {
          passnt =
              if a.hashnt == 0
              then a.passnt
              else stored (take 21 (ntlm_hash_nt_password crypto password)) a.passnt;
        })
  unfolding store_nt
  nt_step a size =
      let fits =
        store_fits 21 (ntlm_hash_nt_password crypto password) a.passnt (omega arith) size in
      elim (Bool-cases (a.hashnt == 0)) [ inl off ↦ rw off refl | inr on ↦ rw (on, fits) refl ]

  pub lm_step :
      (a : Auth) (h : Bytes)
      → ntlm_hash_lm_password crypto password ≡ some h
      → length a.passlm ≡ minibuf_size
      → store_lm crypto password a
        ≡ some
            (record a { passlm = if a.hashlm == 0 then a.passlm else stored (take 21 h) a.passlm })
  unfolding store_lm
  lm_step a h there size =
      let fits = store_fits 21 h a.passlm (omega arith) size in
      elim (Bool-cases (a.hashlm == 0)) [
        | inl off ↦ rw off refl
        | inr on ↦ rw (on, there, fits) refl
      ]

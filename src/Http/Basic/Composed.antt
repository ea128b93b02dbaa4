-- ===== src/Http/Basic/Composed.antt =====
-- A header that a client composed of a domain, a user and a password.
use bev_search.Common.{
  ℕ, ◌+◌, ◌*◌, ◌/◌, ◌≤◌, ◌<◌, ◌≡◌, ◌≢◌, refl, ap, ◌∙◌, arith, true, Option, some, none, [], ◌∷◌,
  ◌++◌, ◌==◌, if◌then◌else◌, length, take, All, All-append, length-append, subst, ap₂,
}
use bev_search.CString.{Bytes, codes, strchr}
use bev_search.Strings.{c_str}
use bev_search.Strings.Copy.{NulFree, c_str-whole}
use bev_search.Hlist
use bev_search.Hlist.{Hlist, subcmp, contains_nocase}
use bev_search.Base64.{to_base64, from_base64}
use bev_search.Base64.RoundTrip.{Octets, from_base64-to_base64}
use bev_search.Auth.{Auth, minibuf_size}
use bev_search.Ntlm.Keys.{Crypto, ntlm_hash_nt_password, ntlm2_hash_password}
use bev_search.Http.Basic.{
  given, backslash, payload, store_names, store_hashes, store_login, http_parse_basic,
}
use bev_search.Http.Basic.Login.{
  Without, strchr-append, strchr-none, before_found, auth_strcpy_fits, scheme, payload-scheme,
  is_basic, lm_there, stored, HasBuffers, IsLogin, ntlm2_step, nt_step, lm_step,
}

-- A user, behind its domain if there is one.
abbrev pub login : Option Bytes → Bytes → Bytes
login none user = user
login (some domain) user = domain ++ backslash ∷ user

abbrev pub domain_of : Option Bytes → Auth → Bytes
domain_of none tcreds = c_str tcreds.domain
domain_of (some domain) tcreds = domain

-- A text that fits its buffer and has neither delimiter.
pub record IsName (s : Bytes) : Type 0 where
  pub text : NulFree s
  pub colon : Without b':' s
  pub slash : Without backslash s
  pub short : length s < minibuf_size

abbrev pub MaybeName : Option Bytes → Type 0
MaybeName none = Unit
MaybeName (some domain) = IsName domain

login-All :
    (P : ℕ → Type 0) (domain : Option Bytes) (user : Bytes)
    → ((d : Bytes) → domain ≡ some d → All P d)
    → P backslash
    → All P user
    → All P (login domain user)
login-All P none user hd hs hu = hu
login-All P (some d) user hd hs hu = All-append P d (backslash ∷ user) (hd d refl) (hs, hu)

names_stored :
    (tcreds : Auth) (domain : Option Bytes) (user : Bytes)
    → HasBuffers tcreds
    → MaybeName domain
    → IsName user
    → (u : Bytes) × (d : Bytes) × (store_names tcreds
          (login domain user)
          (strchr (login domain user) backslash)
        ≡ some (record tcreds { user = u; domain = d }))
      × (length u ≡ minibuf_size)
      × (length d ≡ minibuf_size)
      × (c_str u ≡ user)
      × (c_str d ≡ domain_of domain tcreds)
unfolding store_names
names_stored tcreds none user sized hd hu =
    let u = auth_strcpy_fits tcreds.user user sized.user hu.text hu.short in
    (
      u.0,
      tcreds.domain,
      rw (strchr-none backslash user hu.slash, u.1) refl,
      u.3,
      sized.domain,
      u.2,
      refl,
    )
names_stored tcreds (some domain) user sized hd hu =
    let u = auth_strcpy_fits tcreds.user user sized.user hu.text hu.short in
    let d = auth_strcpy_fits tcreds.domain domain sized.domain hd.text hd.short in
    (
      u.0,
      d.0,
      rw
          (
            strchr-append backslash domain user hd.slash,
            before_found backslash domain user,
            d.1,
            u.1,
          )
          refl,
      u.3,
      d.3,
      u.2,
      d.2,
    )

-- The hashes, of the names that the credentials have.
hashes_stored :
    (crypto : Crypto) (password : Bytes) (named : Auth)
    → HasBuffers named
    → Octets password
    → (a : Auth) × (store_hashes crypto password named ≡ some a)
      × IsLogin crypto named (c_str named.user) (c_str named.domain) password a
unfolding store_hashes
hashes_stored crypto password named sized octets =
    let h = lm_there crypto password octets in
    let ntlm2 : Auth = record named {
      passntlm2 =
          if named.hashntlm2 == 0
          then named.passntlm2
          else stored
              (take 16
                (ntlm2_hash_password crypto (c_str named.user) (c_str named.domain) password))
              named.passntlm2;
    } in
    let nt : Auth = record ntlm2 {
      passnt =
          if named.hashnt == 0
          then named.passnt
          else stored (take 21 (ntlm_hash_nt_password crypto password)) named.passnt;
    } in
    let lm : Auth = record nt {
      passlm = if named.hashlm == 0 then named.passlm else stored (take 21 h.0) named.passlm;
    } in
    (
      lm,
      rw
          (
            ntlm2_step crypto password named sized.passntlm2,
            nt_step crypto password ntlm2 sized.passnt,
            lm_step crypto password nt h.0 h.1 sized.passlm,
          )
          refl,
      record { name = refl; realm = refl; ntlm2 = refl; nt = refl; lm = (h.0, h.1, refl) },
    )

basic_there :
    (headers : Hlist) (header x : Bytes)
    → Hlist.get headers header ≡ some (scheme ++ x)
    → subcmp headers header (codes "basic") ≡ true
unfolding subcmp
basic_there headers header x found = rw (subcmp, found) (is_basic x)

-- What a client sends: the text behind the scheme, and its octets.
abbrev pub login_text : Option Bytes → Bytes → Bytes → Bytes
login_text domain user password = login domain user ++ b':' ∷ password

-- A password and the names before it, which can be sent.
pub record CanBeSent (domain : Option Bytes) (user password : Bytes) : Type 0 where
  pub realm : MaybeName domain
  pub name : IsName user
  pub text : NulFree password
  pub octets : Octets password
  pub all_octets : Octets (login_text domain user password)

module _ (domain : Option Bytes) (user password : Bytes)
    (sent : CanBeSent domain user password) where
  realm_of : (d : Bytes) → domain ≡ some d → IsName d
  realm_of d e = subst MaybeName e sent.realm

  text-NulFree : NulFree (login_text domain user password)
  text-NulFree =
      All-append (λ c. c ≢ 0) (login domain user) (b':' ∷ password)
        (login-All (λ c. c ≢ 0) domain user (λ d e. (realm_of d e).text) (λ e. omega (arith, e))
          sent.name.text)
        ((λ e. omega (arith, e)), sent.text)

  no_colon : Without b':' (login domain user)
  no_colon =
      login-All (λ c. c ≢ b':') domain user (λ d e. (realm_of d e).colon) (λ e. omega (arith, e))
        sent.name.colon

  some_text : login_text domain user password ≢ []
  some_text e =
      absurd (omega (arith, ap length e, length-append (login domain user) (b':' ∷ password)))

  -- For a header with the scheme and the encoded text of a user, behind its domain if one is given,
  -- and a password, the credentials get the user, the domain, if one is given, and the hashes that
  -- they ask for, of exactly these texts; the other hashes stay.
  pub http_parse_basic-IsLogin :
      (crypto : Crypto) (headers : Hlist) (header : Bytes) (tcreds : Auth) (olen : ℕ)
      → Hlist.get headers header ≡ some (scheme ++ to_base64 (login_text domain user password) olen)
      → HasBuffers tcreds
      → 10 < olen
      → 4 * (length (login_text domain user password) / 3) + 7 ≤ olen
      → (a : Auth) × (http_parse_basic crypto headers header tcreds ≡ some (given a))
        × IsLogin crypto tcreds user (domain_of domain tcreds) password a
  unfolding http_parse_basic store_login
  http_parse_basic-IsLogin crypto headers header tcreds olen found sized room fits =
      let text = login_text domain user password in
      let decoded : from_base64 (payload (scheme ++ to_base64 text olen))
          ≡ record { out = text; good = true } =
        ap from_base64 (payload-scheme text olen some_text sent.all_octets room)
        ∙ from_base64-to_base64 text olen some_text sent.all_octets fits in
      let names = names_stored tcreds domain user sized sent.realm sent.name in
      let u = names.0 in
      let d = names.1 in
      let named : Auth = record tcreds { user = u; domain = d } in
      let both : HasBuffers named = record {
        user = names.3;
        domain = names.4;
        passntlm2 = sized.passntlm2;
        passnt = sized.passnt;
        passlm = sized.passlm;
      } in
      let r = hashes_stored crypto password named both sent.octets in
      let a = r.0 in
      let is = r.2 in
      let whole = c_str-whole text text-NulFree in
      let colon = strchr-append b':' (login domain user) password no_colon in
      (
        a,
        rw
            (
              basic_there headers header (to_base64 text olen) found,
              found,
              decoded,
              whole,
              colon,
              before_found b':' (login domain user) password,
              names.2,
              r.1,
            )
            refl,
        record {
          name = is.name ∙ names.5;
          realm = is.realm ∙ names.6;
          ntlm2 =
              is.ntlm2
              ∙ ap
                  (λ t.
                    if tcreds.hashntlm2 == 0
                    then tcreds.passntlm2
                    else stored (take 16 t) tcreds.passntlm2)
                  (ap₂ (λ x y. ntlm2_hash_password crypto x y password) names.5 names.6);
          nt = is.nt;
          lm = is.lm;
        },
      )

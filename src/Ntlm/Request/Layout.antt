-- ===== src/Ntlm/Request/Layout.antt =====
-- Where the fields of a request stand.
use bev_search.Common.{
  ℕ, suc, ◌+◌, ◌-◌, ◌≤◌, none, some, [], ◌∷◌, ◌++◌, ◌≡◌, refl, ap, ◌∙◌, arith, subst, length,
  replicate, take, drop, length-append, length-replicate, drop-append, drop-add, take-append,
  append_assoc,
}
use bev_search.CString.{Bytes, codes}
use bev_search.Strings.{c_str, uppercase}
use bev_search.Auth.{Auth}
use bev_search.Auth.Copies.{IsAuth}
use bev_search.Ntlm.Buffer.{le16, le32, put_all, contents, InOrder, put_all-InOrder}
use bev_search.Ntlm.Request.{
  ntlm_bufsize, request_flags, request_fields, Message, request_with, ntlm_request,
}

pub length-uppercase : (s : Bytes) → length (uppercase s) ≡ length s
length-uppercase [] = refl
length-uppercase (c ∷ s) = ap suc (length-uppercase s)

request_fields-InOrder : (creds : Auth) (flags : ℕ) → InOrder 0 (request_fields creds flags)
request_fields-InOrder creds flags =
    let h = length-uppercase (c_str creds.workstation) in omega (arith, h)

-- The fixed part, which says where the names are.
abbrev pub header : Auth → ℕ → Bytes
header creds flags =
    let dlen = length (c_str creds.domain) in
    let hlen = length (c_str creds.workstation) in
    codes "NTLMSSP"
    ++ 0
      ∷ (le32 1
          ++ le32 flags
          ++ le16 dlen
          ++ le16 dlen
          ++ le32 (32 + hlen)
          ++ le16 hlen
          ++ le16 hlen
          ++ le32 32)

-- A request as the protocol lays it out: the fixed part, then the names in upper case at the offsets
-- and with the lengths that the fixed part states, in a buffer of `ntlm_bufsize` bytes.
pub record IsRequest (creds : Auth) (flags : ℕ) (m : Message) : Type 0 where
  pub bytes : Bytes
  pub there : m.buf ≡ some bytes
  pub size : length bytes ≡ ntlm_bufsize
  pub fixed : take 32 bytes ≡ header creds flags
  pub workstation :
      take (length (c_str creds.workstation)) (drop 32 bytes) ≡ uppercase (c_str creds.workstation)
  pub domain :
      take (length (c_str creds.domain)) (drop (32 + length (c_str creds.workstation)) bytes)
      ≡ uppercase (c_str creds.domain)
  pub len : m.len ≡ 32 + length (c_str creds.domain) + length (c_str creds.workstation)
  pub short : m.len ≤ 130

no_flags :
    (creds : Auth)
    → creds.flags ≡ 0
    → creds.hashntlm2 ≡ 0
    → creds.hashnt ≡ 0
    → creds.hashlm ≡ 0
    → request_flags creds ≡ none
unfolding request_flags
no_flags creds f n2 nt lm = ground arith

module _ (creds : Auth) (flags : ℕ) (sized : IsAuth creds) where
  names : ℕ
  names = length (c_str creds.workstation) + length (c_str creds.domain)

  rest : Bytes
  rest =
      uppercase (c_str creds.workstation)
      ++ (uppercase (c_str creds.domain) ++ replicate (992 - names) 0)

  written :
      put_all (request_fields creds flags) (replicate ntlm_bufsize 0)
      ≡ some (header creds flags ++ rest)
  unfolding names rest
  written =
      let h = length-uppercase (c_str creds.workstation) in
      let d = length-uppercase (c_str creds.domain) in
      let ws = uppercase (c_str creds.workstation) in
      let dom = uppercase (c_str creds.domain) in
      let zeros : Bytes = replicate (992 - names) 0 in
      let shorter : names ≤ 98 = omega (arith, sized.workstation.1, sized.domain.1) in
      let size : length (contents (request_fields creds flags)) + (992 - names) ≡ 1024 =
        omega (arith, h, d, shorter, length-append ws (dom ++ []), length-append dom []) in
      subst
        (λ n.
          put_all (request_fields creds flags) (replicate n 0)
          ≡ some (contents (request_fields creds flags) ++ zeros))
        size
        (put_all-InOrder [] (request_fields creds flags) (992 - names)
          (request_fields-InOrder creds flags))
      ∙ ap (λ t. some (header creds flags ++ t))
          (append_assoc ws (dom ++ []) zeros ∙ ap (λ t. ws ++ t) (append_assoc dom [] zeros))

  laid_out :
      (m : Message)
      → m.buf ≡ some (header creds flags ++ rest)
      → m.len ≡ 32 + length (c_str creds.domain) + length (c_str creds.workstation)
      → IsRequest creds flags m
  unfolding rest names
  laid_out m there len =
      let h = length-uppercase (c_str creds.workstation) in
      let d = length-uppercase (c_str creds.domain) in
      let ws = uppercase (c_str creds.workstation) in
      let dom = uppercase (c_str creds.domain) in
      let zeros : Bytes = replicate (992 - names) 0 in
      let shorter : names ≤ 98 = omega (arith, sized.workstation.1, sized.domain.1) in
      record {
        bytes = header creds flags ++ rest;
        there = there;
        size = omega (
          arith,
          h,
          d,
          shorter,
          length-append ws (dom ++ zeros),
          length-append dom zeros,
          length-replicate {A = ℕ} (992 - names) 0,
        );
        fixed = refl;
        workstation = take-append (length (c_str creds.workstation)) ws (dom ++ zeros) h;
        domain =
            ap (take (length (c_str creds.domain))) (
              drop-add 32 (length (c_str creds.workstation)) (header creds flags ++ rest)
              ∙ drop-append (length (c_str creds.workstation)) ws (dom ++ zeros) h)
            ∙ take-append (length (c_str creds.domain)) dom zeros d;
        len = len;
        short = omega (arith, shorter, len);
      }

-- For credentials whose buffers hold terminated strings a request is built within its buffer of 1024
-- bytes, and is at most 130 bytes long. Its fixed part states the lengths and offsets at which the
-- names then stand. Without flags and without a hash that is asked for, there is no request.
pub ntlm_request-IsRequest :
    (creds : Auth)
    → IsAuth creds
    → ((flags : ℕ)
        → request_flags creds ≡ some flags
        → (m : Message) × (ntlm_request creds ≡ some m) × IsRequest creds flags m)
      × ((creds.flags ≡ 0) × (creds.hashntlm2 ≡ 0) × (creds.hashnt ≡ 0) × (creds.hashlm ≡ 0)
          → ntlm_request creds ≡ some (record { buf = none; len = 0 }))
unfolding ntlm_request
ntlm_request-IsRequest creds sized = (
  λ flags chosen.
      let m : Message = record {
        buf = some (header creds flags ++ rest creds flags sized);
        len = 32 + length (c_str creds.domain) + length (c_str creds.workstation);
      } in
      (
        m,
        ap (request_with creds) chosen ∙ rw (written creds flags sized),
        laid_out creds flags sized m refl refl,
      ),
  λ (f, n2, nt, lm). ap (request_with creds) (no_flags creds f n2 nt lm),
)

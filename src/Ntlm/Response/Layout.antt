-- ===== src/Ntlm/Response/Layout.antt =====
-- Where the fields of a response stand.
use bev_search.Common.{
  ℕ, zero, suc, ◌+◌, ◌-◌, ◌*◌, ◌≤◌, ◌≡◌, inl, inr, refl, sym, ap, ◌∙◌, arith, some, [], ◌∷◌, ◌++◌,
  subst, length, replicate, min, length-append, length-replicate, append_assoc, Bool-cases, ◌||◌,
  List, append-nil,
}
use mathlib.Core.Option
use bev_search.CString.{Bytes}
use bev_search.Strings.{c_str, uppercase, unicode, widen}
use bev_search.Auth.{Auth}
use bev_search.Ntlm.Buffer.{
  le16, le32, slice, put_all, contents, InOrder, put_all-InOrder, put_all-append, slice-append,
}
use bev_search.Ntlm.Keys.{Hashes}
use bev_search.Ntlm.Request.{Message, ntlm_bufsize}
use bev_search.Ntlm.Request.Layout.{length-uppercase}
use bev_search.Ntlm.Response.{
  Names, wide, names_of, names_end, total, head_fields, tail_fields, last_field, message_of, is_set,
}

-- The length that goes with each name is that of its text.
pub record AreSized (n : Names) : Type 0 where
  pub domain : length n.domain.text ≡ n.domain.len
  pub user : length n.user.text ≡ n.user.len
  pub host : length n.host.text ≡ n.host.len

length-widen : (l : ℕ) (s : Bytes) → length (widen l s) ≡ 2 * min l (length s)
unfolding widen
length-widen zero s = ground arith
length-widen (suc l) [] = ground arith
length-widen (suc l) (c ∷ s) = omega (arith, length-widen l s)

wide_sized : (s : Bytes) → (length (wide s).text ≡ (wide s).len) × ((wide s).len ≤ 2 * length s)
unfolding unicode
wide_sized s = (omega (arith, length-widen (min 64 (length s)) s), omega arith)

pub names_of-AreSized : (creds : Auth) → AreSized (names_of creds)
unfolding names_of
names_of-AreSized creds = elim (Bool-cases (is_set creds.hashnt || is_set creds.hashntlm2)) [
  | inl is_wide ↦ rw is_wide (record {
    domain = (wide_sized (uppercase (c_str creds.domain))).0;
    user = (wide_sized (c_str creds.user)).0;
    host = (wide_sized (uppercase (c_str creds.workstation))).0;
  })
  | inr is_narrow ↦ rw is_narrow (record {
    domain = length-uppercase (c_str creds.domain);
    user = length-uppercase (c_str creds.user);
    host = length-uppercase (c_str creds.workstation);
  })
]

-- Sixty bytes: the signature, the type 3, and of each response and name the length, twice, and the
-- offset, the names first, then the LM response, then the NT response; two empty fields, and the length
-- of the message.
abbrev pub fixed_part : (dlen ulen hlen lmlen ntlen : ℕ) → Bytes
fixed_part dlen ulen hlen lmlen ntlen =
    (b'N' ∷ b'T' ∷ b'L' ∷ b'M' ∷ b'S' ∷ b'S' ∷ b'P' ∷ 0 ∷ [])
    ++ le32 3
    ++ le16 lmlen
    ++ le16 lmlen
    ++ le32 (64 + dlen + ulen + hlen)
    ++ le16 ntlen
    ++ le16 ntlen
    ++ le32 (64 + dlen + ulen + hlen + lmlen)
    ++ le16 dlen
    ++ le16 dlen
    ++ le32 64
    ++ le16 ulen
    ++ le16 ulen
    ++ le32 (64 + dlen)
    ++ le16 hlen
    ++ le16 hlen
    ++ le32 (64 + dlen + ulen)
    ++ le16 0
    ++ le16 0
    ++ le16 (64 + dlen + ulen + hlen + lmlen + ntlen)
    ++ 0 ∷ 0 ∷ []

abbrev pub head : Names → Hashes → Bytes
head n hashes =
    fixed_part n.domain.len n.user.len n.host.len (length hashes.lmhash) (length hashes.nthash)

-- A response as the protocol lays it out: that fixed part, the flags of the challenge, and at the
-- offsets and with the lengths that the fixed part states the names and both responses.
pub record IsResponse (n : Names) (hashes : Hashes) (sent : Bytes) (m : Message) : Type 0 where
  pub bytes : Bytes
  pub there : m.buf ≡ some bytes
  pub size : length bytes ≡ ntlm_bufsize
  pub fixed : slice bytes 0 60 ≡ some (head n hashes)
  pub flags : slice bytes 60 4 ≡ some sent
  pub domain : slice bytes 64 n.domain.len ≡ some n.domain.text
  pub user : slice bytes (64 + n.domain.len) n.user.len ≡ some n.user.text
  pub host : slice bytes (64 + n.domain.len + n.user.len) n.host.len ≡ some n.host.text
  pub lmhash : slice bytes (names_end n) (length hashes.lmhash) ≡ some hashes.lmhash
  pub nthash :
      slice bytes (names_end n + length hashes.lmhash) (length hashes.nthash) ≡ some hashes.nthash
  pub len : m.len ≡ total n hashes

-- A field behind others.
field_at :
    (w s rest bytes : Bytes) (at n : ℕ)
    → bytes ≡ w ++ (s ++ rest)
    → at ≡ length w
    → n ≡ length s
    → slice bytes at n ≡ some s
field_at w s rest bytes at n split place size =
    ap (λ b. slice b at n) split ∙ slice-append w s rest at n place size

module _ (n : Names) (hashes : Hashes) (sent : Bytes) (sized : AreSized n) (four : length sent ≡ 4)
    (lm : length hashes.lmhash ≡ 24) (fits : total n hashes ≤ ntlm_bufsize) where
  zeros : Bytes
  zeros = replicate (ntlm_bufsize - total n hashes) 0

  unfoldable pub body : Bytes
  unfolding zeros
  body =
      sent
      ++ (n.domain.text
          ++ (n.user.text ++ (n.host.text ++ (hashes.lmhash ++ (hashes.nthash ++ zeros)))))

  rest_fields : List (ℕ × Bytes)
  rest_fields = tail_fields n hashes sent ++ last_field n hashes

  sizes :
      (names_end n + 24
        ≡ 60
          + (length sent
              + (length n.domain.text
                  + (length n.user.text + (length n.host.text + length hashes.lmhash)))))
  sizes = omega (arith, sized.domain, sized.user, sized.host, lm, four)

  head_written :
      put_all (head_fields n hashes) (replicate ntlm_bufsize 0)
      ≡ some (contents (head_fields n hashes) ++ replicate 966 0)
  head_written = put_all-InOrder [] (head_fields n hashes) 966 (omega arith)

  rest-InOrder : InOrder 60 rest_fields
  unfolding rest_fields
  rest-InOrder = omega (arith, sized.domain, sized.user, sized.host, lm, four)

  rest_size : length (contents rest_fields) + (ntlm_bufsize - total n hashes) ≡ 964
  unfolding rest_fields
  rest_size = omega (
    arith,
    sized.domain,
    sized.user,
    sized.host,
    lm,
    four,
    fits,
    length-append sent (
        n.domain.text
        ++ (n.user.text ++ (n.host.text ++ (hashes.lmhash ++ (hashes.nthash ++ []))))),
    length-append n.domain.text
        (n.user.text ++ (n.host.text ++ (hashes.lmhash ++ (hashes.nthash ++ [])))),
    length-append n.user.text (n.host.text ++ (hashes.lmhash ++ (hashes.nthash ++ []))),
    length-append n.host.text (hashes.lmhash ++ (hashes.nthash ++ [])),
    length-append hashes.lmhash (hashes.nthash ++ []),
    length-append hashes.nthash [],
  )

  rest_written :
      put_all rest_fields (contents (head_fields n hashes) ++ replicate 966 0)
      ≡ some (head n hashes ++ (contents rest_fields ++ zeros))
  unfolding zeros
  rest_written =
      subst
        (λ k.
          put_all rest_fields (head n hashes ++ replicate k 0)
          ≡ some (head n hashes ++ (contents rest_fields ++ zeros)))
        rest_size
        (put_all-InOrder (head n hashes) rest_fields (ntlm_bufsize - total n hashes) rest-InOrder
          ∙ ap (λ b. some b) (append_assoc (head n hashes) (contents rest_fields) zeros))

  body_contents : contents rest_fields ++ zeros ≡ body
  unfolding rest_fields body
  body_contents = simp (append_assoc, append-nil)

  names_before : Bytes
  names_before = sent ++ (n.domain.text ++ (n.user.text ++ n.host.text))

  before_size : length names_before + 60 ≡ names_end n
  unfolding names_before
  before_size = omega (
    arith,
    sized.domain,
    sized.user,
    sized.host,
    four,
    length-append sent (n.domain.text ++ (n.user.text ++ n.host.text)),
    length-append n.domain.text (n.user.text ++ n.host.text),
    length-append n.user.text n.host.text,
  )

  body_names : body ≡ names_before ++ (hashes.lmhash ++ (hashes.nthash ++ zeros))
  unfolding body names_before
  body_names = simp append_assoc

  laid_out :
      (m : Message)
      → m.buf ≡ some (head n hashes ++ body)
      → m.len ≡ total n hashes
      → IsResponse n hashes sent m
  unfolding body zeros names_before
  laid_out m there len =
      let fixed = head n hashes in
      let d = n.domain.text in
      let u = n.user.text in
      let h = n.host.text in
      let nt = hashes.nthash ++ zeros in
      record {
        bytes = fixed ++ body;
        there = there;
        size = omega (
          arith,
          fits,
          before_size,
          lm,
          length-append names_before (hashes.lmhash ++ nt),
          ap length body_names,
          length-append hashes.lmhash nt,
          length-append hashes.nthash zeros,
          length-replicate {A = ℕ} (ntlm_bufsize - total n hashes) 0,
        );
        fixed = field_at [] fixed body (fixed ++ body) 0 60 refl refl refl;
        flags =
            field_at fixed sent (d ++ (u ++ (h ++ (hashes.lmhash ++ nt)))) (fixed ++ body) 60 4 refl
              refl (sym four);
        domain =
            field_at (fixed ++ sent) d (u ++ (h ++ (hashes.lmhash ++ nt))) (fixed ++ body) 64
              n.domain.len (simp append_assoc) (omega (arith, four, length-append fixed sent))
              (sym sized.domain);
        user =
            field_at (fixed ++ (sent ++ d)) u (h ++ (hashes.lmhash ++ nt)) (fixed ++ body)
              (64 + n.domain.len) n.user.len (simp append_assoc)
              (omega
                (arith, four, sized.domain, length-append fixed (sent ++ d), length-append sent d))
              (sym sized.user);
        host =
            field_at (fixed ++ (sent ++ (d ++ u))) h (hashes.lmhash ++ nt) (fixed ++ body)
              (64 + n.domain.len + n.user.len) n.host.len (simp append_assoc)
              (omega (
                arith,
                four,
                sized.domain,
                sized.user,
                length-append fixed (sent ++ (d ++ u)),
                length-append sent (d ++ u),
                length-append d u,
              ))
              (sym sized.host);
        lmhash =
            field_at (fixed ++ names_before) hashes.lmhash nt (fixed ++ body) (names_end n)
              (length hashes.lmhash) (simp append_assoc)
              (omega (arith, before_size, length-append fixed names_before)) refl;
        nthash =
            field_at (fixed ++ (names_before ++ hashes.lmhash)) hashes.nthash zeros (fixed ++ body)
              (names_end n + length hashes.lmhash) (length hashes.nthash) (simp append_assoc)
              (omega (
                arith,
                before_size,
                length-append fixed (names_before ++ hashes.lmhash),
                length-append names_before hashes.lmhash,
              ))
              refl;
        len = len;
      }

  pub message_of-IsResponse :
      (m : Message) × (message_of n hashes sent ≡ some m) × IsResponse n hashes sent m
  unfolding message_of rest_fields
  message_of-IsResponse =
      let made : Bytes → Message = λ buf. record { buf = some buf; len = total n hashes } in
      let m : Message = record { buf = some (head n hashes ++ body); len = total n hashes } in
      (
        m,
        ap (Option.map made) (
            put_all-append (head_fields n hashes) rest_fields (replicate ntlm_bufsize 0)
              (contents (head_fields n hashes) ++ replicate 966 0) head_written
            ∙ rest_written
            ∙ ap (λ b. some (head n hashes ++ b)) body_contents),
        laid_out m refl refl,
      )

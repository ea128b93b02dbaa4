-- ===== src/Ntlm/Response/Sizes.antt =====
-- The responses to a challenge are there, and how long they are.
use bev_search.Common.{
  ℕ, Bool, ◌||◌, if◌then◌else◌, replicate, ◌+◌, ◌≤◌, ◌≡◌, inl, inr, refl, ap, ◌∙◌, arith, some, [],
  ◌∷◌, ◌++◌, length, take, drop, ◌==◌, Bool-cases, length-append, length-take, length-drop,
}
use bev_search.CString.{Bytes}
use bev_search.Auth.{Auth, minibuf_size}
use bev_search.Ntlm.Buffer.{slice_within}
use bev_search.Ntlm.Keys.{
  Crypto, Moment, Hashes, blob_of, ntlm_calc_resp, ntlm2_calc_resp, ntlm2sr_calc_rest,
}
use bev_search.Ntlm.Keys.Fields.{ntlm_set_key-IsKeyOf}
use bev_search.Ntlm.Target.{TargetInfo}
use bev_search.Ntlm.Target.Bounds.{AreBytes}
use bev_search.Ntlm.Response.{with_ntlm2, with_ntlm2sr, with_nt, with_lm, hashes_of, is_set}

-- The sizes of what the ciphers and digests give.
pub record IsSized (crypto : Crypto) (moment : Moment) : Type 0 where
  pub des : (key block : Bytes) → length (crypto.des key block) ≡ 8
  pub md5 : (s : Bytes) → length (crypto.md5 s) ≡ 16
  pub hmac_md5 : (key s : Bytes) → length (crypto.hmac_md5 key s) ≡ 16
  pub nonce : length moment.nonce ≡ 8

-- A buffer of the fixed size for a hash.
abbrev pub IsSecret : Bytes → Type 0
IsSecret b = (length b ≡ minibuf_size) × AreBytes b

pub record AreSecrets (creds : Auth) : Type 0 where
  pub passlm : IsSecret creds.passlm
  pub passnt : IsSecret creds.passnt
  pub passntlm2 : IsSecret creds.passntlm2

-- The length of the response of the LAN manager: it is there if any of three hashes asks for it.
abbrev pub lm_size : Auth → ℕ
lm_size creds =
    if is_set creds.hashlm || (creds.hashnt == 2 || is_set creds.hashntlm2) then 24 else 0

-- The length of the other response.
abbrev pub nt_size : Auth → ℕ → ℕ
nt_size creds tblen =
    if creds.hashnt == 1
    then 24
    else if creds.hashnt == 2
    then 24
    else if is_set creds.hashntlm2
    then 48 + tblen
    else 0

either_size :
    (a b c : Bool)
    → ◌≡◌ {A = ℕ}
        (if a then 24 else if b then 24 else if c then 24 else 0)
        (if a || (b || c) then 24 else 0)
either_size a b c = ground arith

lm_size_lem :
    (creds : Auth)
    → ◌≡◌ {A = ℕ}
        (if is_set creds.hashlm
          then 24
          else if creds.hashnt == 2
          then 24
          else if is_set creds.hashntlm2
          then 24
          else 0)
        (lm_size creds)
lm_size_lem creds = either_size (is_set creds.hashlm) (creds.hashnt == 2) (is_set creds.hashntlm2)

module _ (crypto : Crypto) (moment : Moment) (sized : IsSized crypto moment) where
  calc_resp_there :
      (keys challenge : Bytes)
      → IsSecret keys
      → 8 ≤ length challenge
      → (r : Bytes) × (ntlm_calc_resp crypto keys challenge ≡ some r) × (length r ≡ 24)
  unfolding ntlm_calc_resp
  calc_resp_there keys challenge secret room =
      let block = take 8 challenge in
      let first = ntlm_set_key-IsKeyOf keys 0 secret.1 (omega (arith, secret.0)) in
      let second = ntlm_set_key-IsKeyOf keys 7 secret.1 (omega (arith, secret.0)) in
      let third = ntlm_set_key-IsKeyOf keys 14 secret.1 (omega (arith, secret.0)) in
      let a = crypto.des first.0 block in
      let b = crypto.des second.0 block in
      let c = crypto.des third.0 block in
      (
        a ++ (b ++ c),
        rw (slice_within challenge 0 8 (omega (arith, room)), first.1, second.1, third.1) refl,
        omega (
          arith,
          length-append a (b ++ c),
          length-append b c,
          sized.des first.0 block,
          sized.des second.0 block,
          sized.des third.0 block,
        ),
      )

  ntlm2_there :
      (passntlm2 challenge : Bytes) (tbofs tblen : ℕ)
      → IsSecret passntlm2
      → 32 ≤ length challenge
      → tbofs + tblen ≤ length challenge
      → (r : Hashes) × (ntlm2_calc_resp crypto moment passntlm2 challenge tbofs tblen ≡ some r)
        × (length r.lmhash ≡ 24)
        × (length r.nthash ≡ 48 + tblen)
  unfolding ntlm2_calc_resp blob_of
  ntlm2_there passntlm2 challenge tbofs tblen secret room within =
      let info = take tblen (drop tbofs challenge) in
      let key = take 16 passntlm2 in
      let server = take 8 (drop 24 challenge) in
      let blob = blob_of crypto moment info in
      let nt = crypto.hmac_md5 key (server ++ blob) in
      let lm = crypto.hmac_md5 key (server ++ moment.nonce) in
      (
        record { nthash = nt ++ blob; lmhash = lm ++ moment.nonce },
        rw
            (
              slice_within challenge tbofs tblen within,
              slice_within passntlm2 0 16 (omega (arith, secret.0)),
              slice_within challenge 24 8 room,
            )
            refl,
        omega (
          arith,
          length-append lm moment.nonce,
          sized.hmac_md5 key (server ++ moment.nonce),
          sized.nonce,
        ),
        omega (
          arith,
          length-append nt blob,
          sized.hmac_md5 key (server ++ blob),
          length-append moment.nonce (0 ∷ 0 ∷ 0 ∷ 0 ∷ (info ++ 0 ∷ 0 ∷ 0 ∷ 0 ∷ [])),
          length-append info (0 ∷ 0 ∷ 0 ∷ 0 ∷ []),
          sized.nonce,
          length-take tblen (drop tbofs challenge),
          length-drop tbofs challenge,
          within,
        ),
      )

  ntlm2sr_there :
      (passnt challenge : Bytes)
      → IsSecret passnt
      → 32 ≤ length challenge
      → (r : Hashes) × (ntlm2sr_calc_rest crypto moment passnt challenge ≡ some r)
        × (length r.lmhash ≡ 24)
        × (length r.nthash ≡ 24)
  unfolding ntlm2sr_calc_rest
  ntlm2sr_there passnt challenge secret room =
      let session = crypto.md5 (take 8 (drop 24 challenge) ++ moment.nonce) in
      let nt =
        calc_resp_there passnt session secret
          (omega (arith, sized.md5 (take 8 (drop 24 challenge) ++ moment.nonce))) in
      (
        record { nthash = nt.0; lmhash = moment.nonce ++ replicate 16 0 },
        rw (slice_within challenge 24 8 room, nt.1) refl,
        omega (arith, length-append moment.nonce (replicate 16 0), sized.nonce),
        nt.2,
      )

  module _ (creds : Auth) (challenge : Bytes) (secrets : AreSecrets creds)
      (room : 32 ≤ length challenge) where
    behind : 8 ≤ length (drop 24 challenge)
    behind = omega (arith, length-drop 24 challenge, room)

    ntlm2_step :
        (t : TargetInfo) (h : Hashes)
        → t.tbofs + t.tblen ≤ length challenge
        → (r : Hashes) × (with_ntlm2 crypto moment creds challenge t h ≡ some r)
          × (length r.lmhash ≡ (if is_set creds.hashntlm2 then 24 else length h.lmhash))
          × (length r.nthash ≡ (if is_set creds.hashntlm2 then 48 + t.tblen else length h.nthash))
    unfolding with_ntlm2
    ntlm2_step t h within = elim (Bool-cases (creds.hashntlm2 == 0)) [
      | inl off ↦ (h, rw off refl, rw off refl, rw off refl)
      | inr on ↦
          (let r =
              ntlm2_there creds.passntlm2 challenge t.tbofs t.tblen secrets.passntlm2 room within in
            (r.0, rw on r.1, rw on r.2, rw on r.3))
    ]

    ntlm2sr_step :
        (h : Hashes)
        → (r : Hashes) × (with_ntlm2sr crypto moment creds challenge h ≡ some r)
          × (length r.lmhash ≡ (if creds.hashnt == 2 then 24 else length h.lmhash))
          × (length r.nthash ≡ (if creds.hashnt == 2 then 24 else length h.nthash))
    unfolding with_ntlm2sr
    ntlm2sr_step h = elim (Bool-cases (creds.hashnt == 2)) [
      | inr off ↦ (h, rw off refl, rw off refl, rw off refl)
      | inl on ↦
          (let r = ntlm2sr_there creds.passnt challenge secrets.passnt room in
            (r.0, rw on r.1, rw on r.2, rw on r.3))
    ]

    nt_step :
        (h : Hashes)
        → (r : Hashes) × (with_nt crypto moment creds challenge h ≡ some r)
          × (r.lmhash ≡ h.lmhash)
          × (length r.nthash ≡ (if creds.hashnt == 1 then 24 else length h.nthash))
    unfolding with_nt
    nt_step h = elim (Bool-cases (creds.hashnt == 1)) [
      | inr off ↦ (h, rw off refl, refl, rw off refl)
      | inl on ↦
          (let r = calc_resp_there creds.passnt (drop 24 challenge) secrets.passnt behind in
            (record h { nthash = r.0 }, rw (on, r.1) refl, refl, rw on r.2))
    ]

    lm_step :
        (h : Hashes)
        → (r : Hashes) × (with_lm crypto moment creds challenge h ≡ some r)
          × (length r.lmhash ≡ (if is_set creds.hashlm then 24 else length h.lmhash))
          × (r.nthash ≡ h.nthash)
    unfolding with_lm
    lm_step h = elim (Bool-cases (creds.hashlm == 0)) [
      | inl off ↦ (h, rw off refl, rw off refl, refl)
      | inr on ↦
          (let r = calc_resp_there creds.passlm (drop 24 challenge) secrets.passlm behind in
            (record h { lmhash = r.0 }, rw (on, r.1) refl, rw on r.2, refl))
    ]

    -- The last response of each kind that is asked for.
    pub hashes_there :
        (t : TargetInfo)
        → t.tbofs + t.tblen ≤ length challenge
        → (r : Hashes) × (hashes_of crypto moment creds challenge t ≡ some r)
          × (length r.lmhash ≡ lm_size creds)
          × (length r.nthash ≡ nt_size creds t.tblen)
    unfolding hashes_of
    hashes_there t within =
        let a = ntlm2_step t (record { nthash = []; lmhash = [] }) within in
        let b = ntlm2sr_step a.0 in
        let c = nt_step b.0 in
        let d = lm_step c.0 in
        (
          d.0,
          rw (a.1, b.1, c.1) d.1,
          d.2
              ∙ ap (λ n. if is_set creds.hashlm then 24 else n)
                  (ap length c.2 ∙ b.2 ∙ ap (λ n. if creds.hashnt == 2 then 24 else n) a.2)
              ∙ lm_size_lem creds,
          ap length d.3
              ∙ c.3
              ∙ ap (λ n. if creds.hashnt == 1 then 24 else n)
                  (b.3 ∙ ap (λ n. if creds.hashnt == 2 then 24 else n) a.3),
        )

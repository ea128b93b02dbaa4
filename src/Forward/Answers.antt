-- ===== src/Forward/Answers.antt =====
-- What is left of the answer to a probe, and of the connection.
use bev_search.Common.{
  true_ne, ℕ, Bool, true, false, not, Option, none, some, ◌==◌, if◌then◌else◌, ◌≡◌, ◌≢◌, ◌⊎◌, refl,
  sym, test_ne, ap, subst, arith, ==_iff, inl, inr,
}
use mathlib.Core.Option.{some-injective, none-ne-some}
use bev_search.CString.{Bytes, codes}
use bev_search.CString.Number.{ℤ}
use bev_search.Socket.{so_closed}
use bev_search.Hlist
use bev_search.RrData.{RrData}
use bev_search.Auth.{Auth, ◌>>=◌}
use bev_search.Parents.{proxy_connect}
use bev_search.Forward.{
  Exchange, Pool, Answered, Connection, drop_body, bits, is_negative, connected, renewed, again,
  final_header, authorise, with_code, answered, after_407, after_probe, after_answer, reconnect,
}

pub bind-some :
    {A B : Type 0} (m : Option A) (f : A → Option B) (b : B)
    → m >>= f ≡ some b
    → (a : A) × (m ≡ some a) × (f a ≡ some b)
bind-some none f b e = absurd (none-ne-some _ e)
bind-some (some a) f b e = (a, refl, e)

-- What a test chooses.
pub chosen :
    {A : Type 0} (c : Bool) (x y z : A)
    → (if c then x else y) ≡ z
    → ((c ≡ true) × (x ≡ z)) ⊎ ((c ≡ false) × (y ≡ z))
chosen true x y z e = inl (refl, e)
chosen false x y z e = inr (refl, e)

module _ (ntlm_response : Bytes → Auth → Option Bytes) (resolve : ℕ → Bytes → Option ℕ)
    (connect : ℕ → ℕ → ℕ → ℤ) where
  -- There is no final header: the answer is no 407, has no challenge, or one that has no answer.
  abbrev pub LacksFinal : Auth → RrData → Type 0
  LacksFinal credentials auth =
      (auth.code ≢ 407)
      ⊎ ((Hlist.get auth.headers (codes "Proxy-Authenticate") ≡ none)
          ⊎ ((tmp : Bytes) × (Hlist.get auth.headers (codes "Proxy-Authenticate") ≡ some tmp)
              × (final_header ntlm_response resolve connect credentials tmp ≡ some none)))

  -- The request has the final header for the challenge of an answer 407, or is as it was, if there is
  -- no such header.
  abbrev pub IsAuthorised : Auth → RrData → RrData → RrData → Type 0
  IsAuthorised credentials auth request after =
      ((after ≡ request) × LacksFinal credentials auth)
      ⊎ ((auth.code ≡ 407)
          × (tmp : Bytes) × (buf : Bytes) × (Hlist.get auth.headers (codes "Proxy-Authenticate")
              ≡ some tmp)
          × (final_header ntlm_response resolve connect credentials tmp ≡ some (some buf))
          × (after ≡ record request {
            headers = Hlist.modify request.headers (codes "Proxy-Authorization") buf true;
          }))

  with_header : RrData → Option Bytes → Option (RrData × Bool)
  with_header request none = some (request, false)
  with_header request (some buf) = some (
    record request {
      headers = Hlist.modify request.headers (codes "Proxy-Authorization") buf true;
    },
    true,
  )

  with_header-IsAuthorised :
      (credentials : Auth) (auth request : RrData) (tmp : Bytes) (header : Option Bytes)
      (f : RrData × Bool)
      → auth.code ≡ 407
      → Hlist.get auth.headers (codes "Proxy-Authenticate") ≡ some tmp
      → final_header ntlm_response resolve connect credentials tmp ≡ some header
      → with_header request header ≡ some f
      → IsAuthorised credentials auth request f.0
  unfolding with_header
  with_header-IsAuthorised credentials auth request tmp none f code found known e =
      inl (
        sym (ap (λ (f : RrData × Bool). f.0) (some-injective _ _ e)),
        inr (inr (tmp, found, known)),
      )
  with_header-IsAuthorised credentials auth request tmp (some buf) f code found known e =
      inr
        (code, tmp, buf, found, known, sym (ap (λ (f : RrData × Bool). f.0) (some-injective _ _ e)))

  authorise-IsAuthorised :
      (credentials : Auth) (auth request : RrData) (header : Option Bytes) (f : RrData × Bool)
      → auth.code ≡ 407
      → Hlist.get auth.headers (codes "Proxy-Authenticate") ≡ header
      → authorise ntlm_response resolve connect credentials request header ≡ some f
      → IsAuthorised credentials auth request f.0
  unfolding authorise with_header
  authorise-IsAuthorised credentials auth request none f code found e =
      inl (sym (ap (λ (f : RrData × Bool). f.0) (some-injective _ _ e)), inr (inl found))
  authorise-IsAuthorised credentials auth request (some tmp) f code found e =
      let (header, known, last) =
        bind-some (final_header ntlm_response resolve connect credentials tmp) (with_header request)
          f e in
      with_header-IsAuthorised credentials auth request tmp header f code found known last

  -- What is left of an answer.
  pub record IsAnswered (credentials : Auth) (request : RrData) (response : Option RrData)
      (pretend407 : Bool) (auth : RrData) (a : Answered) : Type 0 where
    pub authorised : a.rc ≡ true → IsAuthorised credentials auth request a.request
    pub forced :
        pretend407 ≡ true → a.rc ≡ true → (d : RrData) → response ≡ some d → a.auth.code ≡ 407
    pub honest : pretend407 ≡ false → a.auth ≡ auth
    pub headers : a.auth.headers ≡ auth.headers
    pub bails : a.goes_on ≡ true → a.rc ≡ true

  after_407-IsAnswered :
      (x : Exchange) (credentials : Auth) (request : RrData) (response : Option RrData)
      (pretend407 : Bool) (auth : RrData) (a : Answered)
      → auth.code ≡ 407
      → after_407 ntlm_response resolve connect x credentials request auth ≡ some a
      → IsAnswered credentials request response pretend407 auth a
  unfolding after_407
  after_407-IsAnswered x credentials request response pretend407 auth a code e =
      let final =
        authorise ntlm_response resolve connect credentials request
          (Hlist.get auth.headers (codes "Proxy-Authenticate")) in
      let (dropped, _, rest) =
        bind-some (drop_body x auth)
          (λ dropped.
            if dropped
            then (final >>= λ f. some (answered auth f.0 true f.1))
            else some (answered auth request false false))
          a e in
      elim (chosen dropped (final >>= λ f. some (answered auth f.0 true f.1))
        (some (answered auth request false false)) (some a) rest) [
          | inl (_, good) ↦
              (let (f, found, last) =
                  bind-some final (λ f. some (answered auth f.0 true f.1)) a good in
                subst (IsAnswered credentials request response pretend407 auth)
                  (some-injective _ _ last)
                  (record {
                    authorised =
                        λ _. authorise-IsAuthorised credentials auth request _ f code refl found;
                    forced = λ _ _ d _. code;
                    honest = λ _. refl;
                    headers = refl;
                    bails = λ _. refl;
                  }))
          | inr (_, bad) ↦
              subst (IsAnswered credentials request response pretend407 auth)
                (some-injective _ _ bad)
                (record {
                  authorised = λ h. absurd (true_ne (sym h));
                  forced = λ _ _ d _. code;
                  honest = λ _. refl;
                  headers = refl;
                  bails = λ h. h;
                })
        ]

  with_code_headers :
      (response : Option RrData) (auth : RrData) → (with_code response auth).headers ≡ auth.headers
  unfolding with_code
  with_code_headers none auth = refl
  with_code_headers (some d) auth = refl

  after_probe-IsAnswered :
      (x : Exchange) (credentials : Auth) (request : RrData) (response : Option RrData)
      (auth : RrData) (a : Answered)
      → auth.code ≢ 407
      → after_probe x request (with_code response auth) ≡ some a
      → IsAnswered credentials request response true auth a
  unfolding after_probe with_code
  after_probe-IsAnswered x credentials request response auth a other e =
      let pretended = with_code response auth in
      let (dropped, _, last) =
        bind-some (drop_body x pretended)
          (λ dropped. some (answered pretended request dropped dropped)) a e in
      subst (IsAnswered credentials request response true auth) (some-injective _ _ last) (record {
        authorised = λ _. inl (refl, inl other);
        forced = λ _ _ d there. ap (λ r. (with_code r auth).code) there;
        honest = λ h. absurd (true_ne h);
        headers = with_code_headers response auth;
        bails = λ h. h;
      })

  pub after_answer-IsAnswered :
      (x : Exchange) (credentials : Auth) (request : RrData) (response : Option RrData)
      (pretend407 : Bool) (auth : RrData) (a : Answered)
      → after_answer ntlm_response resolve connect x credentials request response pretend407 auth
        ≡ some a
      → IsAnswered credentials request response pretend407 auth a
  unfolding after_answer
  after_answer-IsAnswered x credentials request response true auth a e =
      elim (chosen (auth.code == 407)
        (after_407 ntlm_response resolve connect x credentials request auth)
        (after_probe x request (with_code response auth)) (some a) e) [
          | inl (code, required) ↦
              after_407-IsAnswered x credentials request response true auth a
                ((==_iff auth.code 407).0 code) required
          | inr (other, forced) ↦
              after_probe-IsAnswered x credentials request response auth a
                (test_ne auth.code 407 other) forced
        ]
  after_answer-IsAnswered x credentials request response false auth a e =
      elim (chosen (auth.code == 407)
        (after_407 ntlm_response resolve connect x credentials request auth)
        (some (answered auth request true true)) (some a) e) [
          | inl (code, required) ↦
              after_407-IsAnswered x credentials request response false auth a
                ((==_iff auth.code 407).0 code) required
          | inr (other, done) ↦
              subst (IsAnswered credentials request response false auth) (some-injective _ _ done)
                (record {
                  authorised = λ _. inl (refl, inl (test_ne auth.code 407 other));
                  forced = λ h _ _ _. absurd (true_ne (sym h));
                  honest = λ _. refl;
                  headers = refl;
                  bails = λ h. h;
                })
        ]

  -- The connection is the one that there was, or a new one in its place.
  abbrev pub IsKept : Exchange → ℤ → ℤ → Type 0
  IsKept x sd after =
      (after ≡ sd) ⊎ ((so_closed x.recvtest (bits sd) ≡ true) × (is_negative after ≡ false))

  again-good :
      (pool : Pool) (credentials : Auth) (c : Connection)
      → again ntlm_response resolve connect pool credentials ≡ some c
      → c.good ≡ not (is_negative c.sd)
  unfolding again renewed
  again-good pool credentials c e =
      let (r, _, made) =
        bind-some
          (proxy_connect resolve connect pool.parents pool.cache pool.g_creds pool.ntlmbasic
            (some credentials))
          (renewed pool) c e in
      let (filled, _, last) =
        bind-some r.credentials (λ filled. some (connected pool r filled)) c made in
      subst (λ (c : Connection). c.good ≡ not (is_negative c.sd)) (some-injective _ _ last) refl

  pub reconnect-IsKept :
      (x : Exchange) (pool : Pool) (credentials : Auth) (sd : ℤ) (c : Connection)
      → reconnect ntlm_response resolve connect x pool credentials sd ≡ some c
      → c.good ≡ true
      → IsKept x sd c.sd
  unfolding reconnect
  reconnect-IsKept x pool credentials sd c e good =
      let kept : Connection = record {
        sd = sd;
        credentials = credentials;
        pool = pool;
        good = true;
      } in
      elim (chosen (so_closed x.recvtest (bits sd))
        (again ntlm_response resolve connect pool credentials) (some kept) (some c) e) [
          | inl (shut, made) ↦ inr (shut, ground (arith, again-good pool credentials c made, good))
          | inr (_, same) ↦ inl (sym (ap (λ (c : Connection). c.sd) (some-injective _ _ same)))
        ]

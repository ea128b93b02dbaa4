-- ===== src/Parents/Connect.antt =====
-- `proxy_connect` finds a parent that answers, if there is one.
use bev_search.Common.{
  true_ne, eq_self, ℕ, ◌-◌, ◌≤◌, ◌<◌, Bool, true, false, not, Option, none, some, List, [], ◌∷◌,
  map, ◌==◌, if◌then◌else◌, ◌≡◌, ◌≢◌, refl, sym, ap, ◌∙◌, arith, Bool-cases, ==_iff, inl, inr,
}
use bev_search.CString.{Bytes}
use bev_search.CString.Number.{is_pos, ℤ}
use bev_search.Socket.{int_of}
use bev_search.Plist
use bev_search.Plist.{Plist}
use bev_search.Auth.{Auth}
use bev_search.Auth.Copies.{IsAuth, IsCopy, copy_auth-IsCopy}
use bev_search.Parents.{
  Proxy, Parents, first_parent, Cache, live, freed, invalidate, fill_credentials, Connected,
  after_loop, proxy_connect,
}
use bev_search.Parents.Rotation.{IsParents, get-Numbered}
use bev_search.Parents.Rounds.{Answers, IsMade, connect_loop-IsLooped}

-- The first call picks a parent, and the others keep theirs.
started :
    (ps : Parents)
    → IsParents ps
    → 0 < ps.count
    → (qs : Parents) × (first_parent ps ≡ some qs)
      × IsParents qs
      × (0 < qs.curr)
      × (qs.list ≡ ps.list)
      × (qs.count ≡ ps.count)
unfolding first_parent
started ps h some_parent = elim (Bool-cases (ps.curr == 0)) [
  | inl first ↦
      (let found = get-Numbered ps 1 h (omega arith) some_parent in
        (
          record ps { curr = 1 },
          rw (first, found.1),
          record {
            numbered = h.numbered;
            counted = h.counted;
            current = some_parent;
            small = h.small;
          },
          omega arith,
          refl,
          refl,
        ))
  | inr later ↦ (ps, rw later, h, ground arith, refl, refl)
]

-- The keys of the cached connections, as descriptors.
abbrev pub descriptors : Plist Auth → List ℕ
descriptors l = map (λ t. int_of t.key) l

dropped :
    (l : Plist Auth)
    → (kept : List ℕ × Cache) × (invalidate (live l) ≡ some kept)
      × (kept.0 ≡ descriptors l)
      × (l ≢ [] → kept.1 ≡ freed)
unfolding invalidate
dropped [] = (([], live []), refl, refl, λ e. absurd (e refl))
dropped (t ∷ ts) = ((descriptors (t ∷ ts), freed), refl, refl, λ _. refl)

cached :
    (prev curr : ℕ) (l : Plist Auth)
    → (kept : List ℕ × Cache) × ((if prev == curr then some ([], live l) else invalidate (live l))
        ≡ some kept)
      × (prev ≡ curr → (kept.0 ≡ []) × (kept.1 ≡ live l))
      × (prev ≢ curr → (kept.0 ≡ descriptors l) × (l ≢ [] → kept.1 ≡ freed))
cached prev curr l = elim (Bool-cases (prev == curr)) [
  | inl same ↦
      (([], live l), rw same, λ _. (refl, refl), λ ne. absurd (ne ((==_iff prev curr).0 same)))
  | inr other ↦
      (let (kept, done, closed, gone) = dropped l in
        (
          kept,
          rw other done,
          λ same. absurd (true_ne (sym (eq_self curr) ∙ ap (λ k. k == curr) (sym same) ∙ other)),
          λ _. (closed, gone),
        ))
]

none_ne : {A : Type 0} {a : A} → none ≢ some a
none_ne e = cc

-- Credentials to fill, if any, whose buffers have their size and hold terminated strings.
abbrev pub IsFillable : Option Auth → Type 0
IsFillable none = Unit
IsFillable (some a) = IsAuth a

filled :
    (i : ℤ) (g_creds : Auth) (ntlmbasic : Bool) (credentials : Option Auth)
    → IsAuth g_creds
    → IsFillable credentials
    → (after : Option Auth) × (fill_credentials i g_creds ntlmbasic credentials ≡ some after)
      × (is_pos i ≡ true
          → (c : Auth) → credentials ≡ some c
          → (a : Auth) × (after ≡ some a) × IsCopy g_creds (not ntlmbasic) a)
      × (is_pos i ≡ false → after ≡ credentials)
unfolding fill_credentials
filled i g_creds ntlmbasic none h fits = (none, refl, λ good c e. absurd (none_ne e), λ _. refl)
filled i g_creds ntlmbasic (some c) h fits = elim (Bool-cases (is_pos i)) [
  | inl good ↦
      (let (a, done, copy) = (copy_auth-IsCopy c g_creds (not ntlmbasic) fits h).0 in
        (
          some a,
          rw (good, done),
          λ _ _ _. (a, refl, copy),
          λ bad. absurd (true_ne (sym good ∙ bad)),
        ))
  | inr bad ↦ (some c, rw bad, λ good. absurd (true_ne (sym good ∙ bad)), λ _. refl)
]

module _ (resolve : ℕ → Bytes → Option ℕ) (connect : ℕ → ℕ → ℕ → ℤ) where
  -- What a call leaves, from the parents `ps` and the cached connections `l`.
  pub record IsConnected (ps : Parents) (l : Plist Auth) (g_creds : Auth) (ntlmbasic : Bool)
      (credentials : Option Auth) (r : Connected) : Type 0 where
    pub parents : IsParents r.parents
    pub current : 0 < r.parents.curr
    pub made : is_pos r.conn ≡ true → IsMade resolve connect r.parents r.conn
    pub reaches :
        (k : ℕ) (p : Proxy)
        → 0 < k
        → k ≤ ps.count
        → Plist.get ps.list k ≡ some p
        → Answers resolve connect p
        → is_pos r.conn ≡ true
    pub authorised :
        is_pos r.conn ≡ true
        → (c : Auth) → credentials ≡ some c
        → (a : Auth) × (r.credentials ≡ some a) × IsCopy g_creds (not ntlmbasic) a
    pub untouched : is_pos r.conn ≡ false → r.credentials ≡ credentials
    pub kept : ps.curr ≡ r.parents.curr → (r.closed ≡ []) × (r.cache ≡ live l)
    pub left : ps.curr ≢ r.parents.curr → (r.closed ≡ descriptors l) × (l ≢ [] → r.cache ≡ freed)

  -- With some parent, and with credentials whose buffers hold terminated strings, `proxy_connect`
  -- returns within one turn through the parents. It makes a connection whenever one of the parents
  -- answers at every attempt. A connection that it returns was made to the parent that is current
  -- afterwards, and only then the caller's credentials are filled from the global ones. If the parent
  -- stayed, the cached connections are left alone; if it moved, all of them are closed, and a cache that
  -- was not empty is left as a pointer to freed memory.
  pub proxy_connect-IsConnected :
      (ps : Parents) (l : Plist Auth) (g_creds : Auth) (ntlmbasic : Bool)
      (credentials : Option Auth)
      → IsParents ps
      → 0 < ps.count
      → IsAuth g_creds
      → IsFillable credentials
      → (r : Connected) × (proxy_connect resolve connect ps (live l) g_creds ntlmbasic credentials
          ≡ some r)
        × IsConnected ps l g_creds ntlmbasic credentials r
  unfolding proxy_connect after_loop
  proxy_connect-IsConnected ps l g_creds ntlmbasic credentials h some_parent auth fits =
      let (qs, start, valid, running, same_list, same_count) = started ps h some_parent in
      let (r, looped, loop) =
        connect_loop-IsLooped resolve connect (ps.count - 1) 0 qs valid running in
      let (after, fill, good, bad) = filled r.1 g_creds ntlmbasic credentials auth fits in
      let (cache, keep, same, other) = cached ps.curr r.0.curr l in
      (
        record {
          parents = r.0;
          conn = r.1;
          closed = cache.0;
          cache = cache.1;
          credentials = after;
        },
        rw (start, looped, keep, fill),
        record {
          parents = loop.keeps;
          current = loop.runs;
          made = loop.made;
          reaches = λ k p low high found answers.
              loop.reaches k p low (omega (arith, same_count))
                (ap (λ l. Plist.get l k) same_list ∙ found) answers
                (ground (arith, same_count, running, valid.current, low, high));
          authorised = good;
          untouched = bad;
          kept = same;
          left = other;
        },
      )

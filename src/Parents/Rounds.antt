-- ===== src/Parents/Rounds.antt =====
-- The rounds of `proxy_connect` try the parents in turn.
use bev_search.Common.{
  true_ne, eq_self, eq_other, ℕ, zero, suc, ◌+◌, ◌-◌, ◌≤◌, ◌<◌, true, false, Option, some, leb,
  if◌then◌else◌, ◌≡◌, ◌≢◌, refl, sym, ap, ◌∙◌, arith, Bool-cases, inl, inr,
}
use mathlib.Core.Option.{some-injective}
use bev_search.CString.{Bytes}
use bev_search.CString.Number.{is_pos, ℤ}
use bev_search.Plist
use bev_search.Plist.{ulong_of}
use bev_search.Parents.{
  Proxy, Parents, set_aux, next_parent, resolved_proxy, attempt, round, connect_loop,
}
use bev_search.Parents.Rotation.{IsParents, get-Numbered, get-set_aux, set_aux-IsParents}

module _ (resolve : ℕ → Bytes → Option ℕ) (connect : ℕ → ℕ → ℕ → ℤ) where
  -- A proxy that accepts a connection whenever it is tried.
  abbrev pub Answers : Proxy → Type 0
  Answers p = (time : ℕ) → is_pos (attempt resolve connect time p) ≡ true

  -- How many proxies stand before the one with the key `k`.
  abbrev pub ahead : Parents → ℕ → ℕ
  ahead ps k = if leb ps.curr k then k - ps.curr else k + ps.count - ps.curr

  -- The connection was made to the current proxy.
  abbrev pub IsMade : Parents → ℤ → Type 0
  IsMade ps i =
      (time : ℕ) × (p : Proxy) × (Plist.get ps.list ps.curr ≡ some p)
      × (p.resolved ≡ true)
      × (i ≡ connect time p.host p.port)

  resolved_when_made :
      (time : ℕ) (p : Proxy)
      → is_pos (attempt resolve connect time p) ≡ true
      → ((resolved_proxy resolve connect time p).resolved ≡ true)
        × (attempt resolve connect time p
            ≡ connect time
                (resolved_proxy resolve connect time p).host
                (resolved_proxy resolve connect time p).port)
  unfolding attempt is_pos
  resolved_when_made time p h = ground arith

  -- A round keeps the list of parents, and stays at a proxy that answers or moves to the next.
  record IsRound (time : ℕ) (ps : Parents) (p : Proxy) (r : Parents × ℤ) : Type 0 where
    keeps : IsParents r.0
    runs : 0 < r.0.curr
    size : r.0.count ≡ ps.count
    result : r.1 ≡ attempt resolve connect time p
    made : is_pos r.1 ≡ true → IsMade r.0 r.1
    moved : is_pos r.1 ≡ false → r.0.curr ≡ next_parent ps
    others : (j : ℕ) → j ≤ ps.count → ps.curr ≢ j → Plist.get r.0.list j ≡ Plist.get ps.list j

  round-IsRound :
      (time : ℕ) (ps : Parents) (p : Proxy)
      → IsParents ps
      → 0 < ps.curr
      → Plist.get ps.list ps.curr ≡ some p
      → (r : Parents × ℤ) × (round resolve connect time ps ≡ some r) × IsRound time ps p r
  unfolding round next_parent
  round-IsRound time ps p h runs there =
      let aux = resolved_proxy resolve connect time p in
      let i = attempt resolve connect time p in
      let tried : Parents = record ps { list = set_aux ps.list (ulong_of ps.curr) aux } in
      let kept : IsParents tried = set_aux-IsParents ps (ulong_of ps.curr) aux h in
      let changed = get-set_aux ps p aux in
      let current : Plist.get tried.list ps.curr ≡ some aux =
        changed ps.curr h there h.current
        ∙ ap (λ b. if b then some aux else Plist.get ps.list ps.curr) (eq_self ps.curr) in
      let others : (j : ℕ)
          → j ≤ ps.count
          → ps.curr ≢ j
          → Plist.get tried.list j ≡ Plist.get ps.list j =
        λ j low ne.
          changed j h there low
          ∙ ap (λ b. if b then some aux else Plist.get ps.list j) (eq_other ps.curr j ne) in
      elim (Bool-cases (is_pos i)) [
        | inl good ↦
            (let made = resolved_when_made time p good in
              (
                (tried, i),
                rw (there, good),
                record {
                  keeps = kept;
                  runs = runs;
                  size = refl;
                  result = refl;
                  made = λ _. (time, aux, current, made.0, made.1);
                  moved = λ e. absurd (true_ne (sym good ∙ e));
                  others = others;
                },
              ))
        | inr bad ↦
            (let next = next_parent ps in
              let bounds : (0 < next) × (next ≤ ps.count) = ground arith in
              let found = get-Numbered tried next kept bounds.0 bounds.1 in
              (
                (record tried { curr = next }, i),
                rw (there, bad, found.1),
                record {
                  keeps = record {
                    numbered = kept.numbered;
                    counted = kept.counted;
                    current = bounds.1;
                    small = kept.small;
                  };
                  runs = bounds.0;
                  size = refl;
                  result = refl;
                  made = λ e. absurd (true_ne (sym e ∙ bad));
                  moved = λ _. refl;
                  others = others;
                },
              ))
      ]

  -- After the loop: the list is kept, and the loop has answered if a proxy does that it comes to.
  pub record IsLooped (more : ℕ) (ps : Parents) (r : Parents × ℤ) : Type 0 where
    pub keeps : IsParents r.0
    pub runs : 0 < r.0.curr
    pub size : r.0.count ≡ ps.count
    pub made : is_pos r.1 ≡ true → IsMade r.0 r.1
    pub reaches :
        (k : ℕ) (p : Proxy)
        → 0 < k
        → k ≤ ps.count
        → Plist.get ps.list k ≡ some p
        → Answers p
        → ahead ps k ≤ more
        → is_pos r.1 ≡ true

  nearer :
      {more : ℕ} (ps qs : Parents) (k : ℕ)
      → qs.count ≡ ps.count
      → qs.curr ≡ next_parent ps
      → ps.curr ≤ ps.count
      → 0 < k
      → k ≤ ps.count
      → ps.curr ≢ k
      → ahead ps k ≤ suc more
      → ahead qs k ≤ more
  unfolding next_parent
  nearer ps qs k size moved current low high other near = ground arith

  good_attempt :
      (time : ℕ) (ps : Parents) (p : Proxy) (r : Parents × ℤ)
      → Plist.get ps.list ps.curr ≡ some p
      → IsRound time ps p r
      → (k : ℕ) (q : Proxy) → ps.curr ≡ k
      → Plist.get ps.list k ≡ some q
      → Answers q
      → is_pos r.1 ≡ true
  good_attempt time ps p r there h k q same found answers =
      let e : p ≡ q = some-injective _ _ (sym there ∙ ap (Plist.get ps.list) same ∙ found) in
      ap is_pos h.result ∙ ap (λ p. is_pos (attempt resolve connect time p)) e ∙ answers time

  pub connect_loop-IsLooped :
      (more time : ℕ) (ps : Parents)
      → IsParents ps
      → 0 < ps.curr
      → (r : Parents × ℤ) × (connect_loop resolve connect more time ps ≡ some r)
        × IsLooped more ps r
  unfolding connect_loop
  connect_loop-IsLooped zero time ps h runs =
      let current = get-Numbered ps ps.curr h runs h.current in
      let (r, done, one) = round-IsRound time ps current.0 h runs current.1 in
      (
        r,
        done,
        record {
          keeps = one.keeps;
          runs = one.runs;
          size = one.size;
          made = one.made;
          reaches = λ k q low high found answers near.
              good_attempt time ps current.0 r current.1 one k q (ground arith) found answers;
        },
      )
  connect_loop-IsLooped (suc more) time ps h runs =
      let current = get-Numbered ps ps.curr h runs h.current in
      let (r, done, one) = round-IsRound time ps current.0 h runs current.1 in
      elim (Bool-cases (is_pos r.1)) [
        | inl good ↦ (
          r,
          rw (done, good),
          record {
            keeps = one.keeps;
            runs = one.runs;
            size = one.size;
            made = one.made;
            reaches = λ k q low high found answers near. good;
          },
        )
        | inr bad ↦
            (let (s, rest, loop) = connect_loop-IsLooped more (time + 1) r.0 one.keeps one.runs in
              (
                s,
                rw (done, bad, rest),
                record {
                  keeps = loop.keeps;
                  runs = loop.runs;
                  size = loop.size ∙ one.size;
                  made = loop.made;
                  reaches = λ k q low high found answers near.
                      let other : ps.curr ≢ k = λ same. true_ne (
                        sym (good_attempt time ps current.0 r current.1 one k q same found answers)
                        ∙ bad) in
                      loop.reaches k q low (omega (arith, one.size))
                        (one.others k high other ∙ found) answers
                        (nearer ps r.0 k one.size (one.moved bad) h.current low high other near);
                },
              ))
      ]

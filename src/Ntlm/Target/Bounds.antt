-- ===== src/Ntlm/Target/Bounds.antt =====
-- The walk reads inside of the challenge only, and comes to an end.
use bev_search.Common.{
  ℕ, zero, suc, ◌+◌, ◌*◌, ◌^◌, ◌≤◌, ◌<◌, false, Option, none, some, [], ◌∷◌, ltb, leb, ◌==◌,
  get_elem?, length, All, ◌≡◌, ◌≢◌, inl, inr, ◌⊎◌, refl, sym, subst, ap, ap₂, ◌∙◌, arith,
  Bool-cases, leb→le, ltb→lt, ◌-◌,
}
use bev_search.CString.{Bytes}
use bev_search.Ntlm.Target.{
  TargetInfo, wrap16, val16, Round, ends, takes, pair_of, round, walk, closed, target_info,
}

abbrev pub AreBytes : Bytes → Type 0
AreBytes = All (λ c. c < 2 ^ 8)

byte_at :
    (mem : Bytes) (at : ℕ)
    → AreBytes mem
    → at < length mem
    → (c : ℕ) × (get_elem? mem at ≡ some c) × (c < 2 ^ 8)
byte_at [] at small h = absurd (omega arith)
byte_at (x ∷ mem) zero small h = (x, refl, small.0)
byte_at (x ∷ mem) (suc at) small h = byte_at mem at small.1 (omega arith)

val16_reads :
    (mem : Bytes) (at : ℕ)
    → AreBytes mem
    → suc at < length mem
    → (v : ℕ) × (val16 mem at ≡ some v) × (v < 2 ^ 16)
unfolding val16
val16_reads mem at small h =
    let low = byte_at mem at small (omega arith) in
    let high = byte_at mem (suc at) small h in
    (low.0 + 2 ^ 8 * high.0, rw (low.1, high.1), omega (arith, low.2, high.2))

-- What a round does: nothing is read outside, the type 0 ends the loop at a pair that is inside of
-- the challenge, and so is a pair that is taken.
abbrev pub RoundWithin : ℕ → ℕ → ℕ → Option Round → Type 0
RoundWithin challen tpos ttype r =
    ((type : ℕ) × (r ≡ some (ends type)) × (type ≡ 0 → ttype ≢ 0 → tpos + 4 ≤ challen))
    ⊎ ((type : ℕ) × (len : ℕ) × (r ≡ some (takes type len))
        × (type ≢ 0)
        × (tpos + 4 + len ≤ challen))

test-ne : (n : ℕ) → n == 0 ≡ false → n ≢ 0
test-ne n h e = ground arith

ltb→le : (a b : ℕ) → ltb a b ≡ false → b ≤ a
ltb→le a b h = ground arith

pair_within :
    (mem : Bytes) (challen tpos ttype type : ℕ)
    → AreBytes mem
    → challen ≤ length mem
    → tpos + 4 ≤ challen
    → type ≢ 0
    → RoundWithin challen tpos ttype (pair_of mem challen tpos type)
unfolding pair_of
pair_within mem challen tpos ttype type small h room nonzero =
    let len = val16_reads mem (tpos + 2) small (omega arith) in
    elim (Bool-cases (ltb challen (tpos + 4 + len.0))) [
      | inl beyond ↦ inl (type, rw (len.1, beyond), λ e _. absurd (nonzero e))
      | inr inside ↦
          inr (type, len.0, rw (len.1, inside), nonzero, ltb→le challen (tpos + 4 + len.0) inside)
    ]

round_within :
    (mem : Bytes) (challen tpos ttype : ℕ)
    → AreBytes mem
    → challen ≤ length mem
    → RoundWithin challen tpos ttype (round mem challen tpos ttype)
unfolding round
round_within mem challen tpos ttype small h = elim (Bool-cases (leb (tpos + 4) challen)) [
  | inl room ↦
      (let within : tpos + 4 ≤ challen = leb→le (tpos + 4) challen room in
        let type = val16_reads mem tpos small (omega arith) in
        elim (Bool-cases (type.0 == 0)) [
          | inl last ↦ inl (type.0, rw (room, type.1, last), λ _ _. within)
          | inr more ↦
              subst (RoundWithin challen tpos ttype) (sym (rw (room, type.1, more)))
                (pair_within mem challen tpos ttype type.0 small h within (test-ne type.0 more))
        ])
  | inr beyond ↦ inl (ttype, rw beyond, λ e n. absurd (n e))
]

-- What the loop leaves.
pub record WalkWithin (challen tbofs : ℕ) (t : TargetInfo) : Type 0 where
  pub begin : t.tbofs ≡ tbofs
  pub small : t.tblen < 2 ^ 16
  pub pairs : 0 < t.tblen → tbofs + t.tblen ≤ challen
  pub last : t.ttype ≡ 0 → tbofs + t.tblen + 4 ≤ challen

abbrev then_walk : ℕ → Bytes → ℕ → ℕ → ℕ → ℕ → Option Round → Option TargetInfo
then_walk fuel mem challen tbofs tpos tblen none = none
then_walk fuel mem challen tbofs tpos tblen (some (ends type)) =
    some (record { tbofs = tbofs; tblen = tblen; ttype = type })
then_walk fuel mem challen tbofs tpos tblen (some (takes type len)) =
    walk fuel mem challen tbofs (wrap16 (tpos + (4 + len))) (wrap16 (tblen + (4 + len))) type

walk_within :
    (fuel : ℕ) (mem : Bytes) (challen tbofs tpos tblen ttype : ℕ)
    → AreBytes mem
    → challen ≤ length mem
    → challen < 2 ^ 16
    → 0 < fuel
    → challen ≤ fuel + tpos
    → tpos ≡ tbofs + tblen
    → tblen < 2 ^ 16
    → (0 < tblen → tpos ≤ challen)
    → ttype ≢ 0
    → (t : TargetInfo) × (walk fuel mem challen tbofs tpos tblen ttype ≡ some t)
      × WalkWithin challen tbofs t
unfolding walk
walk_within zero mem challen tbofs tpos tblen ttype bytes h small run enough split narrow inside
      nonzero =
    absurd (omega arith)
walk_within (suc fuel) mem challen tbofs tpos tblen ttype bytes h small run enough split narrow
      inside nonzero =
    elim (round_within mem challen tpos ttype bytes h) [
      | inl (type, found, within) ↦ (
        record { tbofs = tbofs; tblen = tblen; ttype = type },
        ap (then_walk fuel mem challen tbofs tpos tblen) found,
        record {
          begin = refl;
          small = narrow;
          pairs = λ p. omega (arith, inside p);
          last = λ e. omega (arith, within e nonzero);
        },
      )
      | inr (type, len, found, more, within) ↦
          (let pos_wraps : wrap16 (tpos + (4 + len)) ≡ tpos + (4 + len) = omega arith in
            let len_wraps : wrap16 (tblen + (4 + len)) ≡ tblen + (4 + len) = omega arith in
            let later =
              walk_within fuel mem challen tbofs (tpos + (4 + len)) (tblen + (4 + len)) type bytes h
                small (omega arith) (omega arith) (omega arith) (omega arith) (λ _. omega arith)
                more in
            (
              later.0,
              ap (then_walk fuel mem challen tbofs tpos tblen) found
                  ∙ ap₂ (λ p l. walk fuel mem challen tbofs p l type) pos_wraps len_wraps
                  ∙ later.1,
              later.2,
            ))
    ]

initial_type : 2 ^ 16 - 1 ≢ 0
initial_type e = omega (arith, e)

closed_within :
    (challen tbofs tblen ttype : ℕ)
    → challen < 2 ^ 16
    → (0 < tblen → tbofs + tblen ≤ challen)
    → (ttype ≡ 0 → tbofs + tblen + 4 ≤ challen)
    → let t = closed (record { tbofs = tbofs; tblen = tblen; ttype = ttype }) in
      0 < t.tblen → t.tbofs + t.tblen ≤ challen
unfolding closed
closed_within challen tbofs tblen ttype small pairs last = elim (Bool-cases (ltb 0 tblen)) [
  | inl some_pairs ↦ elim (Bool-cases (ttype == 0)) [
    | inl ended ↦
        (let e : ttype ≡ 0 = ground arith in
          let room = last e in
          let wraps : wrap16 (tblen + 4) ≡ tblen + 4 = omega arith in
          rw (some_pairs, ended, wraps) (λ _. omega arith))
    | inr more ↦ rw (some_pairs, more) pairs
  ]
  | inr empty ↦ rw empty pairs
]

-- For a challenge of less than 64 KiB that the server chose, with at least `challen` bytes in memory,
-- the loop over its target information reads inside of the challenge only and ends within as many
-- rounds as the challenge has bytes; the target information that it finds, if any, is a part of the
-- challenge.
pub target_info_within :
    (challenge : Bytes) (challen : ℕ)
    → AreBytes challenge
    → challen ≤ length challenge
    → challen < 2 ^ 16
    → (t : TargetInfo) × (target_info challenge challen ≡ some t)
      × (0 < t.tblen → t.tbofs + t.tblen ≤ challen)
unfolding target_info
target_info_within challenge challen bytes h small = elim (Bool-cases (ltb 48 challen)) [
  | inl long ↦
      (let l = ltb→lt 48 challen long in
        let tbofs = val16_reads challenge 44 bytes (omega arith) in
        let t =
          walk_within challen challenge challen tbofs.0 tbofs.0 0 (2 ^ 16 - 1) bytes h small
            (omega arith) (omega arith) (omega arith) (omega arith) (λ p. absurd (omega arith))
            initial_type in
        (
          closed t.0,
          rw (long, tbofs.1, t.1),
          closed_within challen t.0.tbofs t.0.tblen t.0.ttype small
              (λ p. omega (arith, t.2.begin, t.2.pairs p))
              (λ e. omega (arith, t.2.begin, t.2.last e)),
        ))
  | inr short ↦
      (record { tbofs = 0; tblen = 0; ttype = 2 ^ 16 - 1 }, rw short, λ p. absurd (omega arith))
]

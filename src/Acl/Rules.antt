-- ===== src/Acl/Rules.antt =====
-- The list of rules as a policy: the first rule whose prefix an address has decides.
use bev_search.Common.{
  ℕ, ◌+◌, ◌^◌, ◌≤◌, ◌<◌, true, false, Bool, Option, none, some, [], ◌∷◌, ◌++◌, ltb, ◌==◌, ==_iff,
  ◌≡◌, ◌⊎◌, inl, inr, refl, ap, ◌∙◌, arith, Bool-cases, Option-cases, All, All-append, Bool_ext,
  if◌then◌else◌, drop, take, length,
}
use bev_search.CString.{Bytes, codes, strcspn, same}
use bev_search.Swap.Laws.{swap32-lt}
use bev_search.CString.Number.{Long, strtol10}
use bev_search.Plist.Laws.{add-append}
use bev_search.Plist.{Plist}
use bev_search.Acl.{
  acl_allow, Network, matches, check_rule, acl_check, accept_mask, parse_mask, parse_source,
  parse_rule, acl_add,
}
use bev_search.Acl.Prefix.{prefix, matches_iff}

abbrev pub IsNetwork : Network → Type 0
IsNetwork net = (net.mask ≤ 32) × (net.ip < 2 ^ 32)

-- What the resolver of the system returns is an address.
abbrev pub Resolver : (Bytes → Option ℕ) → Type 0
Resolver resolve = (name : Bytes) (addr : ℕ) → resolve name ≡ some addr → addr < 2 ^ 32

abbrev IsNetwork? : Option Network → Type 0
IsNetwork? none = ⊥
IsNetwork? (some net) = IsNetwork net

-- Every rule has a network.
abbrev pub IsValid : Plist Network → Type 0
IsValid = All (λ t. IsNetwork? t.aux)

abbrev decide_by : ℕ → ℕ → Option Network → ℕ → ℕ
decide_by naddr key none later = later
decide_by naddr key (some net) later =
    if prefix net.mask naddr == prefix net.mask net.ip then key else later

-- The policy, over prefixes: the key of the first rule whose prefix the address has, and a default.
pub policy : Plist Network → ℕ → ℕ → ℕ
policy [] naddr default = default
policy (t ∷ rules) naddr default = decide_by naddr t.key t.aux (policy rules naddr default)

if_some : (b : Bool) (x y : ℕ) → (if b then some x else some y) ≡ some (if b then x else y)
if_some true x y = refl
if_some false x y = refl

check_rule-policy :
    (aux : Option Network) (key naddr later : ℕ)
    → IsNetwork? aux
    → naddr < 2 ^ 32
    → check_rule aux key naddr (some later) ≡ some (decide_by naddr key aux later)
unfolding check_rule
check_rule-policy none key naddr later h lt = absurd h
check_rule-policy (some net) key naddr later (mask, ip) lt =
    let agree = matches_iff net naddr mask ip lt in
    let here = prefix net.mask naddr in
    let there = prefix net.mask net.ip in
    let test : matches net naddr ≡ (here == there) =
      Bool_ext (matches net naddr) (here == there) (λ e. (==_iff here there).1 (agree.0 e))
        (λ e. agree.1 ((==_iff here there).0 e)) in
    rw test (if_some (here == there) key later)

-- With valid rules `acl_check` follows no NULL pointer, and returns the key of the first rule whose
-- network has the address in it, or ACL_ALLOW if there is none.
pub acl_check-policy :
    (rules : Plist Network) (naddr : ℕ)
    → IsValid rules
    → naddr < 2 ^ 32
    → acl_check rules naddr ≡ some (policy rules naddr acl_allow)
unfolding acl_check policy
acl_check-policy [] naddr h lt = refl
acl_check-policy (t ∷ rules) naddr (ht, h) lt =
    rw (acl_check-policy rules naddr h lt)
      (check_rule-policy t.aux t.key naddr (policy rules naddr acl_allow) ht lt)

parse_source-IsNetwork :
    (resolve : Bytes → Option ℕ) (spec : Bytes) (mask : ℕ) {net : Network}
    → Resolver resolve
    → mask ≤ 32
    → parse_source resolve spec mask ≡ some net
    → IsNetwork net
unfolding parse_source
parse_source-IsNetwork resolve spec mask {net = net} ok h e = elim (Option-cases (resolve spec)) [
  | inl missing ↦ ground arith
  | inr (addr, found) ↦ ground (arith, ok spec addr found)
]

accept_mask-le : (text : Bytes) (l : Long) {mask : ℕ} → accept_mask text l ≡ some mask → mask ≤ 32
accept_mask-le text l h = unfold accept_mask in ground arith

parse_mask-le : (text : Bytes) {mask : ℕ} → parse_mask text ≡ some mask → mask ≤ 32
parse_mask-le text h = accept_mask-le text (strtol10 text) (unfold parse_mask in h)

parse_rule-IsNetwork :
    (resolve : Bytes → Option ℕ) (spec : Bytes) {net : Network}
    → Resolver resolve
    → parse_rule resolve spec ≡ some net
    → IsNetwork net
unfolding parse_rule
parse_rule-IsNetwork resolve spec {net = net} ok e =
    let i = strcspn spec b'/' in
    elim (Bool-cases (ltb i (length spec))) [
      | inl masked ↦ elim (Option-cases (parse_mask (drop (i + 1) spec))) [
        | inl refused ↦ absurd (ground arith)
        | inr (mask, read) ↦
            parse_source-IsNetwork resolve (take i spec) mask ok
              (parse_mask-le (drop (i + 1) spec) read) (ground arith)
      ]
      | inr plain ↦ parse_source-IsNetwork resolve spec 32 ok (omega arith) (ground arith)
    ]

acl_add-none :
    (resolve : Bytes → Option ℕ) (rules : Plist Network) (spec : Bytes) (acl : ℕ)
    → parse_rule resolve spec ≡ none
    → acl_add resolve rules spec acl ≡ (rules, 0)
unfolding acl_add
acl_add-none resolve rules spec acl h = ground arith

abbrev with_rule : Plist Network → ℕ → Network → Plist Network
with_rule rules acl net = rules ++ (record { key = acl; aux = some net }) ∷ []

acl_add-some :
    (resolve : Bytes → Option ℕ) (rules : Plist Network) (spec : Bytes) (acl : ℕ) (net : Network)
    → parse_rule resolve spec ≡ some net
    → acl_add resolve rules spec acl ≡ (with_rule rules acl net, 1)
unfolding acl_add
acl_add-some resolve rules spec acl net h = ground (arith, add-append rules acl (some net))

-- `acl_add` either refuses a rule, returns 0 and leaves the list alone, or returns 1 and puts one
-- rule with a valid network behind the others; valid rules stay valid.
pub acl_add-IsValid :
    (resolve : Bytes → Option ℕ) (rules : Plist Network) (spec : Bytes) (acl : ℕ)
    → Resolver resolve
    → IsValid rules
    → let (rules', rc) = acl_add resolve rules spec acl in
      IsValid rules'
      × (((rc ≡ 0) × (rules' ≡ rules))
          ⊎ ((net : Network) × (rc ≡ 1)
              × IsNetwork net
              × (rules' ≡ rules ++ (record { key = acl; aux = some net }) ∷ [])))
acl_add-IsValid resolve rules spec acl ok h = elim (Option-cases (parse_rule resolve spec)) [
  | inl refused ↦ rw (acl_add-none resolve rules spec acl refused) (h, inl (refl, refl))
  | inr (net, made) ↦
      let valid = parse_rule-IsNetwork resolve spec ok made in
      rw (acl_add-some resolve rules spec acl net made)
        (All-append (λ t. IsNetwork? t.aux) rules _ h (valid, tt), inr (net, refl, valid, refl))
]

abbrev everything : Network
everything = record { ip = 0; mask = 0 }

parse_rule-star : (resolve : Bytes → Option ℕ) → parse_rule resolve (codes "*") ≡ some everything
unfolding parse_rule parse_source strcspn same
parse_rule-star resolve = refl

policy-star :
    (rules : Plist Network) (acl naddr default : ℕ)
    → naddr < 2 ^ 32
    → policy (rules ++ (record { key = acl; aux = some everything }) ∷ []) naddr default
      ≡ policy rules naddr acl
unfolding policy
policy-star [] acl naddr default lt =
    let here : prefix 0 naddr ≡ prefix 0 0 =
      omega (arith, swap32-lt naddr lt, swap32-lt 0 (omega arith)) in
    rw ((==_iff (prefix 0 naddr) (prefix 0 0)).1 here)
policy-star (t ∷ rules) acl naddr default lt =
    ap (decide_by naddr t.key t.aux) (policy-star rules acl naddr default lt)

-- A rule for "*" decides every address that no earlier rule decides, and changes nothing for the
-- others: it is the default of the policy.
pub acl_check-default :
    (resolve : Bytes → Option ℕ) (rules : Plist Network) (acl naddr : ℕ)
    → IsValid rules
    → naddr < 2 ^ 32
    → acl_check (acl_add resolve rules (codes "*") acl).0 naddr ≡ some (policy rules naddr acl)
acl_check-default resolve rules acl naddr h lt =
    let star = rules ++ (record { key = acl; aux = some everything }) ∷ [] in
    let valid : IsValid star =
      All-append (λ t. IsNetwork? t.aux) rules _ h ((omega arith, omega arith), tt) in
    rw (acl_add-some resolve rules (codes "*") acl everything (parse_rule-star resolve))
      (acl_check-policy star naddr valid lt ∙ ap some (policy-star rules acl naddr acl_allow lt))

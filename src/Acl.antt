-- ===== src/Acl.antt =====
-- The access rules of cntlm-0.92.3/acl.c. An address is the `s_addr` of a machine with the low byte
-- first: its bytes stand in network order. Resolving a host name is the system's: a parameter.
pub mod Prefix
pub mod Rules
use bev_search.Common.{
  ℕ, suc, ◌+◌, ◌-◌, ◌*◌, ◌/◌, ◌%◌, ◌^◌, min, Bool, true, false, ◌&&◌, ◌||◌, not, Option, none, some,
  List, [], ◌∷◌, ltb, leb, ◌==◌, if◌then◌else◌, length, take, drop, bit_and,
}
use bev_search.CString.{Bytes, codes, same, strcspn}
use bev_search.CString.Number.{int_of_long, Long, strtol10}
use bev_search.Plist
use bev_search.Plist.{PNode, Plist}
use bev_search.Swap.{swap32}

-- The keys of a list of rules.
abbrev pub acl_allow : ℕ
acl_allow = 0

abbrev pub acl_deny : ℕ
acl_deny = 1

pub record Network : Type 0 where
  pub ip : ℕ
  pub mask : ℕ

-- `swap32(~(((uint64_t)1 << (32-mask)) - 1))`
unfoldable pub net_mask : ℕ → ℕ
net_mask m = swap32 (2 ^ 64 - 1 - (2 ^ (32 - m) - 1))

unfoldable pub matches : Network → ℕ → Bool
unfolding net_mask
matches aux naddr = bit_and naddr (net_mask aux.mask) == bit_and aux.ip (net_mask aux.mask)

-- The test of one rule; `none` is a rule with a NULL pointer, which the code would follow.
check_rule : Option Network → ℕ → ℕ → Option ℕ → Option ℕ
check_rule none key naddr later = none
check_rule (some aux) key naddr later = if matches aux naddr then some key else later

unfoldable pub acl_check : Plist Network → ℕ → Option ℕ
unfolding check_rule
acl_check [] naddr = some acl_allow
acl_check (t ∷ rules) naddr = check_rule t.aux t.key naddr (acl_check rules naddr)

is_empty : Bytes → Bool
is_empty [] = true
is_empty (c ∷ s) = false

-- The test of the mask. A negative `int` is a pattern above 32.
accept_mask : Bytes → Long → Option ℕ
unfolding int_of_long is_empty
accept_mask text l =
    let mask = int_of_long l in
    if ltb 32 mask || is_empty text || not (is_empty l.rest) then none else some mask

-- The part of a rule behind `/`.
unfoldable pub parse_mask : Bytes → Option ℕ
unfolding accept_mask strtol10
parse_mask text = accept_mask text (strtol10 text)

-- The address of a rule, and the mask that goes with it.
unfoldable pub parse_source : (Bytes → Option ℕ) → Bytes → ℕ → Option Network
parse_source resolve spec mask =
    if same (codes "*") spec
    then some (record { ip = 0; mask = 0 })
    else if same (codes "0") spec
    then some (record { ip = 0; mask = mask })
    else elim (resolve spec) [ none ↦ none | some addr ↦ some (record { ip = addr; mask = mask }) ]

unfoldable pub parse_rule : (Bytes → Option ℕ) → Bytes → Option Network
parse_rule resolve spec =
    let i = strcspn spec b'/' in
    if ltb i (length spec)
    then elim (parse_mask (drop (i + 1) spec)) [
      | none ↦ none
      | some mask ↦ parse_source resolve (take i spec) mask
    ]
    else parse_source resolve spec 32

-- The new list and the result, 1 or 0.
unfoldable pub acl_add : (Bytes → Option ℕ) → Plist Network → Bytes → ℕ → Plist Network × ℕ
acl_add resolve rules spec acl = elim (parse_rule resolve spec) [
  | none ↦ (rules, 0)
  | some aux ↦ (Plist.add rules acl (some aux), 1)
]

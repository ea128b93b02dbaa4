-- ===== src/Tests/Access.antt =====
-- The access rules of cntlm-0.92.3/acl.c at concrete inputs.
use bev_search.Common.{
  ℕ, ◌+◌, ◌*◌, ◌^◌, true, Option, none, some, [], ◌∷◌, ◌++◌, ◌≡◌, ◌⊎◌, ◌↔◌, refl, arith,
}
use bev_search.CString.{Bytes, codes}
use bev_search.Plist.{Plist}
use bev_search.Acl.{acl_allow, acl_deny, Network, matches, acl_check, acl_add, parse_mask}
use bev_search.Acl.Prefix.{prefix, matches_iff}
use bev_search.Acl.Rules.{IsNetwork, IsValid, Resolver, policy, acl_check-policy, acl_add-IsValid}
use bev_search.Swap.{swap32}

-- 10.1.0.0/16, and two addresses of which one is in it; the low byte stands first.
abbrev office : Network
office = record { ip = 10 + 1 * 256; mask = 16 }

abbrev desk : ℕ
desk = 10 + 1 * 256 + 2 * 2 ^ 16 + 3 * 2 ^ 24

abbrev elsewhere : ℕ
elsewhere = 10 + 2 * 256

abbrev rules : Plist Network
rules = (record { key = acl_allow; aux = some office }) ∷ []

abbrev resolve : Bytes → Option ℕ
resolve name = some 0x0100007f

matches_run : (matches office desk ≡ true) × (acl_check rules elsewhere ≡ some acl_allow)
unfolding matches acl_check swap32
matches_run = (refl, refl)

matches_iff_example : (matches office desk ≡ true) ↔ (prefix 16 desk ≡ prefix 16 office.ip)
matches_iff_example = matches_iff office desk (omega arith) (omega arith) (omega arith)

acl_check-policy_example : acl_check rules desk ≡ some (policy rules desk acl_allow)
acl_check-policy_example =
    acl_check-policy rules desk ((omega arith, omega arith), tt) (omega arith)

resolve-Resolver : Resolver resolve
resolve-Resolver name addr h = ground arith

acl_add-IsValid_example :
    IsValid (acl_add resolve rules (codes "localhost/32") acl_deny).0
    × ((((acl_add resolve rules (codes "localhost/32") acl_deny).1 ≡ 0)
          × ((acl_add resolve rules (codes "localhost/32") acl_deny).0 ≡ rules))
        ⊎ ((net : Network) × ((acl_add resolve rules (codes "localhost/32") acl_deny).1 ≡ 1)
            × IsNetwork net
            × ((acl_add resolve rules (codes "localhost/32") acl_deny).0
                ≡ rules ++ (record { key = acl_deny; aux = some net }) ∷ [])))
acl_add-IsValid_example =
    acl_add-IsValid resolve rules (codes "localhost/32") acl_deny resolve-Resolver
      ((omega arith, omega arith), tt)

parse_mask_run :
    (parse_mask (codes "24") ≡ some 24)
    × (parse_mask (codes "33") ≡ none)
    × (parse_mask (codes "-1") ≡ none)
unfolding parse_mask
parse_mask_run = (refl, refl, refl)

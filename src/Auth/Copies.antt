-- ===== src/Auth/Copies.antt =====
-- Copies of credentials: what is the same, and that no secret is left behind.
use bev_search.Common.{
  zero, suc, ◌∷◌, ◌<◌, Bool, true, false, some, [], if◌then◌else◌, ◌≡◌, refl, ◌∙◌, arith, length,
  take_all,
}
use bev_search.CString.{Bytes}
use bev_search.Strings.{c_str}
use bev_search.Strings.Copy.{NulFree, copied, strlcpy_fits}
use bev_search.Auth.{
  minibuf_size, Auth, zeroed, new_auth, copy_text, copy_secrets, copy_auth, dup_auth,
}

-- A buffer of the fixed size that holds a string with its terminator.
abbrev pub IsText : Bytes → Type 0
IsText b = (length b ≡ minibuf_size) × (length (c_str b) < minibuf_size)

pub record IsAuth (a : Auth) : Type 0 where
  pub user : IsText a.user
  pub domain : IsText a.domain
  pub workstation : IsText a.workstation

c_str-NulFree : (b : Bytes) → NulFree (c_str b)
unfolding c_str
c_str-NulFree [] = tt
c_str-NulFree (zero ∷ b) = tt
c_str-NulFree (suc c ∷ b) = ((λ e. omega (arith, e)), c_str-NulFree b)

copy_text_fits :
    (dst src : Bytes)
    → IsText dst
    → IsText src
    → (copy_text dst src ≡ some (copied 49 dst (c_str src)))
      × (c_str (copied 49 dst (c_str src)) ≡ c_str src)
unfolding copy_text
copy_text_fits dst src to from =
    let fits = strlcpy_fits dst (c_str src) 49 (omega arith) (c_str-NulFree src) in
    (rw fits.0, fits.1 ∙ take_all 49 (c_str src) (omega arith))

-- What a copy shows of its source.
pub record IsCopy (src : Auth) (fullcopy : Bool) (dst : Auth) : Type 0 where
  pub domain : c_str dst.domain ≡ c_str src.domain
  pub workstation : c_str dst.workstation ≡ c_str src.workstation
  pub user : c_str dst.user ≡ (if fullcopy then c_str src.user else [])
  pub passlm : dst.passlm ≡ (if fullcopy then src.passlm else zeroed)
  pub passnt : dst.passnt ≡ (if fullcopy then src.passnt else zeroed)
  pub passntlm2 : dst.passntlm2 ≡ (if fullcopy then src.passntlm2 else zeroed)
  pub hashes :
      (dst.hashntlm2 ≡ src.hashntlm2) × (dst.hashnt ≡ src.hashnt) × (dst.hashlm ≡ src.hashlm)
  pub flags : dst.flags ≡ src.flags

zeroed-IsText : IsText zeroed
zeroed-IsText = (refl, unfold c_str in omega arith)

zeroed_empty : c_str zeroed ≡ []
unfolding c_str
zeroed_empty = refl

new_auth-IsAuth : IsAuth new_auth
unfolding new_auth
new_auth-IsAuth = record {
  user = zeroed-IsText;
  domain = zeroed-IsText;
  workstation = zeroed-IsText;
}

whole-IsCopy :
    (dst src : Auth)
    → IsAuth dst
    → IsAuth src
    → (a : Auth) × (copy_auth dst src true ≡ some a) × IsCopy src true a
unfolding copy_auth copy_secrets
whole-IsCopy dst src to from =
    let domain = copy_text_fits dst.domain src.domain to.domain from.domain in
    let workstation =
      copy_text_fits dst.workstation src.workstation to.workstation from.workstation in
    let user = copy_text_fits dst.user src.user to.user from.user in
    (
      _,
      rw (domain.0, workstation.0, user.0),
      record {
        domain = domain.1;
        workstation = workstation.1;
        user = user.1;
        passlm = refl;
        passnt = refl;
        passntlm2 = refl;
        hashes = (refl, refl, refl);
        flags = refl;
      },
    )

blank-IsCopy :
    (dst src : Auth)
    → IsAuth dst
    → IsAuth src
    → (a : Auth) × (copy_auth dst src false ≡ some a) × IsCopy src false a
unfolding copy_auth copy_secrets
blank-IsCopy dst src to from =
    let domain = copy_text_fits dst.domain src.domain to.domain from.domain in
    let workstation =
      copy_text_fits dst.workstation src.workstation to.workstation from.workstation in
    (
      _,
      rw (domain.0, workstation.0),
      record {
        domain = domain.1;
        workstation = workstation.1;
        user = zeroed_empty;
        passlm = refl;
        passnt = refl;
        passntlm2 = refl;
        hashes = (refl, refl, refl);
        flags = refl;
      },
    )

copy_auth_any :
    (dst src : Auth) (fullcopy : Bool)
    → IsAuth dst
    → IsAuth src
    → (a : Auth) × (copy_auth dst src fullcopy ≡ some a) × IsCopy src fullcopy a
copy_auth_any dst src true = whole-IsCopy dst src
copy_auth_any dst src false = blank-IsCopy dst src

-- Between credentials whose buffers have their size and hold terminated strings, `copy_auth` writes
-- within the buffers. The copy has the domain, the workstation, the choice of hashes and the flags of
-- its source, and with `fullcopy` its user and passwords; without it these are cleared, whatever the
-- destination held. A duplicate is a copy in the same sense.
pub copy_auth-IsCopy :
    (dst src : Auth) (fullcopy : Bool)
    → IsAuth dst
    → IsAuth src
    → ((a : Auth) × (copy_auth dst src fullcopy ≡ some a) × IsCopy src fullcopy a)
      × ((a : Auth) × (dup_auth src fullcopy ≡ some a) × IsCopy src fullcopy a)
unfolding dup_auth
copy_auth-IsCopy dst src fullcopy to from = (
  copy_auth_any dst src fullcopy to from,
  copy_auth_any new_auth src fullcopy new_auth-IsAuth from,
)

-- ===== src/Auth.antt =====
-- The credentials of cntlm-0.92.3/auth.c: six buffers of MINIBUF_SIZE bytes, which hash to use, and
-- the flags of a request. `none` is a write outside of a buffer.
pub mod Copies
use bev_search.Common.{
  ℕ, Bool, true, false, Option, none, some, List, ◌==◌, if◌then◌else◌, replicate,
}
use bev_search.CString.{Bytes}
use bev_search.Strings.{c_str, strlcpy}

abbrev pub minibuf_size : ℕ
minibuf_size = 50

pub record Auth : Type 0 where
  pub user : Bytes
  pub domain : Bytes
  pub workstation : Bytes
  pub passlm : Bytes
  pub passnt : Bytes
  pub passntlm2 : Bytes
  pub hashntlm2 : ℕ
  pub hashnt : ℕ
  pub hashlm : ℕ
  pub flags : ℕ

abbrev pub zeroed : Bytes
zeroed = replicate minibuf_size 0

unfoldable pub new_auth : Auth
new_auth = record {
  user = zeroed;
  domain = zeroed;
  workstation = zeroed;
  passlm = zeroed;
  passnt = zeroed;
  passntlm2 = zeroed;
  hashntlm2 = 1;
  hashnt = 0;
  hashlm = 0;
  flags = 0;
}

infixl 5 ◌>>=◌
abbrev pub ◌>>=◌ : {A B : Type 0} → Option A → (A → Option B) → Option B
none >>= f = none
some a >>= f = f a

-- `strlcpy(dst, src, MINIBUF_SIZE)` between two buffers.
copy_text : Bytes → Bytes → Option Bytes
copy_text dst src = do r ← strlcpy dst (c_str src) minibuf_size; some r.0

-- What is copied besides, or cleared.
copy_secrets : Auth → Auth → Bool → Option Auth
copy_secrets dst src true = do
  user ← copy_text dst.user src.user
  some (record dst {
    user = user;
    passntlm2 = src.passntlm2;
    passnt = src.passnt;
    passlm = src.passlm;
  })
copy_secrets dst src false =
    some (record dst { user = zeroed; passntlm2 = zeroed; passnt = zeroed; passlm = zeroed })

unfoldable pub copy_auth : Auth → Auth → Bool → Option Auth
unfolding copy_text copy_secrets
copy_auth dst src fullcopy = do
  domain ← copy_text dst.domain src.domain
  workstation ← copy_text dst.workstation src.workstation
  copy_secrets
      (record dst {
        hashntlm2 = src.hashntlm2;
        hashnt = src.hashnt;
        hashlm = src.hashlm;
        flags = src.flags;
        domain = domain;
        workstation = workstation;
      })
      src fullcopy

-- `new_auth` finds memory.
unfoldable pub dup_auth : Auth → Bool → Option Auth
unfolding copy_auth new_auth
dup_auth creds fullcopy = copy_auth new_auth creds fullcopy

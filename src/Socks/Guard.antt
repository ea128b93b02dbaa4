-- ===== src/Socks/Guard.antt =====
-- With a list of users nobody gets past the dialogue without a name and password of that list.
use bev_search.Common.{
  ℕ, ◌+◌, Bool, true, false, Option, none, some, List, [], ◌∷◌, ◌++◌, ltb, ◌==◌, if◌then◌else◌, ◌≡◌,
  ◌≢◌, ◌⊎◌, inl, inr, refl, sym, subst, ap, ◌∙◌, length, take, get_or, ==_iff,
}
use bev_search.CString.{Bytes, same}
use bev_search.Strings.{c_str}
use bev_search.Hlist.{Hlist}
use bev_search.Socks.Session.{
  Session, Step, go, bail, fault, M, then_step, ◌>>=◌, next_read, read, exactly, read_exact,
}
use bev_search.Socks.Dialogue.{
  choose_method, answer_offer, offered, negotiate, is_user, answer_user, read_password, read_user,
  user_length, authenticate,
}

pub then_step-go :
    {A B : Type 0} (m : Step A) (f : A → M B) (b : B) (t : Session)
    → then_step m f ≡ go b t
    → (a : A) × (s : Session) × (m ≡ go a s) × (f a s ≡ go b t)
then_step-go (go a s) f b t e = (a, s, refl, e)
then_step-go (bail s) f b t e = cc
then_step-go fault f b t e = cc

-- One `read` of `n` bytes gives all of them.
abbrev pub Took : ℕ → Bytes → List (Option Bytes) → List (Option Bytes) → Type 0
Took n b before after =
    (length b ≡ n)
    × (((raw : Bytes) × (before ≡ some raw ∷ after) × (b ≡ take n raw))
        ⊎ ((before ≡ []) × (b ≡ []) × (after ≡ [])))

go_injective : {A : Type 0} (a b : A) (s t : Session) → go a s ≡ go b t → (a ≡ b) × (s ≡ t)
go_injective a b s t e = (cc, cc)

if-go :
    {A : Type 0} (c : Bool) (m k : M A) (s : Session) (a : A) (t : Session)
    → (if c then m else k) s ≡ go a t
    → ((c ≡ true) × (m s ≡ go a t)) ⊎ ((c ≡ false) × (k s ≡ go a t))
if-go true m k s a t e = inl (refl, e)
if-go false m k s a t e = inr (refl, e)

exactly-go :
    (n : ℕ) (r : Option Bytes) (s : Session) (b : Bytes) (t : Session)
    → exactly n r s ≡ go b t
    → (r ≡ some b) × (length b ≡ n) × (s ≡ t)
exactly-go n none s b t e = cc
exactly-go n (some x) s b t e = elim (if-go (length x == n) (λ s. go x s) (λ s. bail s) s b t e) [
  | inl (full, done) ↦
      (let same = go_injective x b s t done in
        (ap some same.0, ap length (sym same.0) ∙ (==_iff (length x) n).0 full, same.1))
  | inr (short, done) ↦ cc
]

next_read-Took :
    (n : ℕ) (reads : List (Option Bytes)) (writes : List Bytes) (b : Bytes) (t u : Session)
    → next_read n reads writes ≡ go (some b) t
    → length b ≡ n
    → t ≡ u
    → Took n b reads u.reads × (u.writes ≡ writes)
next_read-Took n [] writes b t u e size same = ((size, inr (refl, cc, cc)), cc)
next_read-Took n (none ∷ reads) writes b t u e size same = cc
next_read-Took n (some x ∷ reads) writes b t u e size same = ((size, inl (x, cc, cc)), cc)

read_exact-Took :
    (n : ℕ) (s : Session) (b : Bytes) (t : Session)
    → read_exact n s ≡ go b t
    → Took n b s.reads t.reads × (t.writes ≡ s.writes)
read_exact-Took n s b t e =
    let (r, u, got, all) = then_step-go (next_read n s.reads s.writes) (exactly n) b t e in
    let (whole, size, same) = exactly-go n r u b t all in
    next_read-Took n s.reads s.writes b u t (got ∙ ap (λ r. go r u) whole) size same

bail_ne : {A : Type 0} {a : A} {s t : Session} → bail s ≢ go a t
bail_ne e = cc

-- The offer of the client, and that it was answered by a method.
pub record Negotiated (is_open : Bool) (found : ℕ) (s t : Session) : Type 0 where
  pub hello : Bytes
  pub auths : Bytes
  pub between : List (Option Bytes)
  pub took_hello : Took 2 hello s.reads between
  pub took_auths : Took (get_or hello 1 0) auths between t.reads
  pub version : get_or hello 0 0 ≡ 5
  pub chosen : choose_method is_open auths ≡ some found
  pub writes : t.writes ≡ s.writes ++ (5 ∷ found ∷ []) ∷ []

answer_offer-go :
    (m : Option ℕ) (s : Session) (found : ℕ) (t : Session)
    → answer_offer m s ≡ go found t
    → (m ≡ some found) × (t.reads ≡ s.reads) × (t.writes ≡ s.writes ++ (5 ∷ found ∷ []) ∷ [])
unfolding answer_offer
answer_offer-go none s found t e = cc
answer_offer-go (some m) s found t e = (cc, cc, cc)

pub negotiate-go :
    (is_open : Bool) (s : Session) (found : ℕ) (t : Session)
    → negotiate is_open s ≡ go found t
    → Negotiated is_open found s t
unfolding negotiate offered
negotiate-go is_open s found t e =
    let (hello, u, first, rest) = then_step-go (read_exact 2 s) (offered is_open) found t e in
    let took = read_exact-Took 2 s hello u first in
    let methods : M ℕ =
      read_exact (get_or hello 1 0) >>= λ auths. answer_offer (choose_method is_open auths) in
    elim (if-go (get_or hello 0 0 == 5) methods (λ s. bail s) u found t rest) [
      | inl (version, more) ↦
          (let (auths, v, second, answer) =
              then_step-go (read_exact (get_or hello 1 0) u)
                (λ auths. answer_offer (choose_method is_open auths)) found t more in
            let took2 = read_exact-Took (get_or hello 1 0) u auths v second in
            let done = answer_offer-go (choose_method is_open auths) v found t answer in
            record {
              hello = hello;
              auths = auths;
              between = u.reads;
              took_hello = took.0;
              took_auths = subst (Took (get_or hello 1 0) auths u.reads) (sym done.1) took2.0;
              version = (==_iff (get_or hello 0 0) 5).0 version;
              chosen = done.0;
              writes = done.2 ∙ ap (λ w. w ++ (5 ∷ found ∷ []) ∷ []) (took2.1 ∙ took.1);
            })
      | inr (other, more) ↦ absurd (bail_ne more)
    ]

-- A name and a password were sent, and accepted.
pub record Authenticated (users : Hlist) (s t : Session) : Type 0 where
  pub header : Bytes
  pub uname : Bytes
  pub upass : Bytes
  pub names : List (Option Bytes)
  pub passwords : List (Option Bytes)
  pub took_header : Took 2 header s.reads names
  pub took_name : Took (get_or header 1 0 + 1) uname names passwords
  pub took_password : Took (get_or uname (get_or header 1 0) 0) upass passwords t.reads
  pub known : is_user users (c_str (take (get_or header 1 0) uname)) (c_str upass) ≡ true
  pub writes : t.writes ≡ s.writes ++ (1 ∷ 0 ∷ []) ∷ []

answer_user-go :
    (b : Bool) (s t : Session)
    → answer_user b s ≡ go tt t
    → (b ≡ true) × (t.reads ≡ s.reads) × (t.writes ≡ s.writes ++ (1 ∷ 0 ∷ []) ∷ [])
unfolding answer_user
answer_user-go true s t e = (refl, cc, cc)
answer_user-go false s t e = cc

module _ (users : Hlist) where
  read_password-go :
      (uname : Bytes) (c : ℕ) (s t : Session)
      → read_password users uname c s ≡ go tt t
      → (upass : Bytes) × Took c upass s.reads t.reads
        × (is_user users uname (c_str upass) ≡ true)
        × (t.writes ≡ s.writes ++ (1 ∷ 0 ∷ []) ∷ [])
  unfolding read_password
  read_password-go uname c s t e =
      let check : Bytes → M (Unit {0}) = λ upass. answer_user (is_user users uname (c_str upass)) in
      elim (if-go (ltb c 128) (read_exact c >>= check) (λ s. fault) s tt t e) [
        | inl (short, more) ↦
            (let (upass, u, got, answer) = then_step-go (read_exact c s) check tt t more in
              let took = read_exact-Took c s upass u got in
              let done = answer_user-go (is_user users uname (c_str upass)) u t answer in
              (
                upass,
                subst (Took c upass s.reads) (sym done.1) took.0,
                done.0,
                done.2 ∙ ap (λ w. w ++ (1 ∷ 0 ∷ []) ∷ []) took.1,
              ))
        | inr (long, more) ↦ cc
      ]

  user_length-go :
      (r : Option Bytes) (s t : Session)
      → user_length users r s ≡ go tt t
      → (header : Bytes) × (r ≡ some header)
        × (length header ≡ 2)
        × (read_user users (get_or header 1 0) s ≡ go tt t)
  unfolding user_length
  user_length-go none s t e = cc
  user_length-go (some header) s t e =
      elim (if-go (length header == 2) (read_user users (get_or header 1 0)) _ s tt t e) [
        | inl (two, more) ↦ (header, refl, (==_iff (length header) 2).0 two, more)
        | inr (other, more) ↦ cc
      ]

  pub authenticate-go :
      (found : ℕ) (s t : Session)
      → found ≢ 0
      → authenticate users found s ≡ go tt t
      → Authenticated users s t
  unfolding authenticate read_user
  authenticate-go found s t some_method e =
      elim (if-go (found == 0) (λ s. go tt s) (read 2 >>= user_length users) s tt t e) [
        | inl (no_method, more) ↦ absurd (some_method ((==_iff found 0).0 no_method))
        | inr (method, more) ↦
            (let (r, u, got, rest) = then_step-go (read 2 s) (user_length users) tt t more in
              let (header, whole, size, next) = user_length-go r u t rest in
              let took =
                next_read-Took 2 s.reads s.writes header u u (got ∙ ap (λ r. go r u) whole) size
                  refl in
              let c = get_or header 1 0 in
              let (uname, v, name, password) =
                then_step-go (read_exact (c + 1) u)
                  (λ uname. read_password users (c_str (take c uname)) (get_or uname c 0)) tt t
                  next in
              let took_name = read_exact-Took (c + 1) u uname v name in
              let (upass, took_password, known, writes) =
                read_password-go (c_str (take c uname)) (get_or uname c 0) v t password in
              record {
                header = header;
                uname = uname;
                upass = upass;
                names = u.reads;
                passwords = v.reads;
                took_header = took.0;
                took_name = took_name.0;
                took_password = took_password;
                known = known;
                writes = writes ∙ ap (λ w. w ++ (1 ∷ 0 ∷ []) ∷ []) (took_name.1 ∙ took.1);
              })
      ]

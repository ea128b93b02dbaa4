-- ===== src/Parents/Add.antt =====
-- `parent_add` keeps the list of parents numbered.
use bev_search.Common.{
  ℕ, zero, suc, ◌+◌, ◌^◌, ◌<◌, true, false, ◌||◌, Option, none, some, [], ◌∷◌, ◌++◌, ◌==◌, ==_iff,
  ◌≡◌, ◌≢◌, ◌⊎◌, refl, sym, subst, ap, ◌∙◌, arith, length, drop, drop-add, drop-append, take,
  take-append, length-append, replicate, length-replicate, All, eq_other, if◌then◌else◌,
}
use bev_search.CString.{Bytes}
use bev_search.CString.Number.{atoi}
use bev_search.Strings.{c_str}
use bev_search.Strings.Copy.{NulFree, copied, strlcpy_fits}
use bev_search.Plist
use bev_search.Plist.{Plist, ulong_of}
use bev_search.Parents.{
  Proxy, Parents, host_span, skip_blanks, incomplete, spec, parse_parent, Added, rejected, exits,
  added, add_proxy, add_spec, parent_add,
}
use bev_search.Parents.Rotation.{Numbered, IsParents}

add-Numbered :
    (n : ℕ) (l : Plist Proxy) (k : ℕ) (p : Proxy)
    → Numbered n l
    → k ≡ n + length l
    → Numbered n (Plist.add l k (some p))
unfolding Plist.add
add-Numbered n [] k p h e = (omega (arith, e), (p, refl), tt)
add-Numbered n (t ∷ ts) k p (key, there, rest) e =
    (key, there, add-Numbered (suc n) ts k p rest (omega (arith, e)))

length-add :
    (l : Plist Proxy) (k : ℕ) (p : Proxy) → length (Plist.add l k (some p)) ≡ suc (length l)
unfolding Plist.add
length-add [] k p = refl
length-add (t ∷ ts) k p = ap suc (length-add ts k p)

find_last :
    (n : ℕ) (l : Plist Proxy) (k : ℕ) (p : Proxy)
    → Numbered n l
    → k ≡ n + length l
    → Plist.find_aux (Plist.add l k (some p)) k ≡ some p
unfolding Plist.add Plist.find_aux
find_last n [] k p h e = ground arith
find_last n (t ∷ ts) k p (key, there, rest) e =
    let later : (t.key == k) ≡ false = ground (arith, key) in
    rw later (find_last (suc n) ts k p rest (omega (arith, e)))

-- The text of a host: without a terminator, a colon or a space.
abbrev pub IsHost : Bytes → Type 0
IsHost = All (λ c. (c ≢ 0) × (c ≢ b':') × (c ≢ 32))

abbrev pub AreBlank : Bytes → Type 0
AreBlank = All (λ c. (c ≡ 32) ⊎ (c ≡ 9))

-- What stands behind the host: nothing; a delimiter, with nothing but blanks behind it; or a delimiter,
-- blanks, and a text that begins with no blank.
pub data Behind : Type 0 where
  alone : Behind
  blank : ℕ → Bytes → Behind
  numbered : ℕ → Bytes → ℕ → Bytes → Behind

abbrev pub written : Bytes → Behind → Bytes
written host alone = host
written host (blank d blanks) = host ++ d ∷ blanks
written host (numbered d blanks c text) = host ++ d ∷ (blanks ++ c ∷ text)

abbrev pub IsBehind : Behind → Type 0
IsBehind alone = Unit
IsBehind (blank d blanks) = ((d ≡ b':') ⊎ (d ≡ 32)) × AreBlank blanks
IsBehind (numbered d blanks c text) = ((d ≡ b':') ⊎ (d ≡ 32)) × AreBlank blanks × (c ≢ 32) × (c ≢ 9)

-- The port, or nothing for a specification that is rejected.
abbrev pub port_of : Behind → ℕ → Option ℕ
port_of alone port = some port
port_of (blank d blanks) port = none
port_of (numbered d blanks c text) port = some (atoi (c ∷ text))

host_span_whole : (host : Bytes) → IsHost host → host_span host ≡ length host
unfolding host_span
host_span_whole [] h = refl
host_span_whole (c ∷ host) (h, hs) =
    let other : (c == b':' || c == 32) ≡ false = ground (arith, h) in
    rw other (ap suc (host_span_whole host hs))

host_span_cut :
    (host rest : Bytes) (d : ℕ)
    → IsHost host
    → (d ≡ b':') ⊎ (d ≡ 32)
    → host_span (host ++ d ∷ rest) ≡ length host
unfolding host_span
host_span_cut [] rest d h delimiter =
    let ends : (d == b':' || d == 32) ≡ true = ground (arith, delimiter) in rw ends refl
host_span_cut (c ∷ host) rest d (h, hs) delimiter =
    let other : (c == b':' || c == 32) ≡ false = ground (arith, h) in
    rw other (ap suc (host_span_cut host rest d hs delimiter))

skip_blanks_all : (blanks : Bytes) → AreBlank blanks → skip_blanks blanks ≡ []
unfolding skip_blanks
skip_blanks_all [] h = refl
skip_blanks_all (c ∷ blanks) (h, hs) =
    let blank : (c == 32 || c == 9) ≡ true = ground (arith, h) in
    rw blank (skip_blanks_all blanks hs)

skip_blanks_until :
    (blanks text : Bytes) (c : ℕ)
    → AreBlank blanks
    → c ≢ 32
    → c ≢ 9
    → skip_blanks (blanks ++ c ∷ text) ≡ c ∷ text
unfolding skip_blanks
skip_blanks_until [] text c h s t =
    let other : (c == 32 || c == 9) ≡ false = ground (arith, s, t) in rw other refl
skip_blanks_until (b ∷ blanks) text c (h, hs) s t =
    let blank : (b == 32 || b == 9) ≡ true = ground (arith, h) in
    rw blank (skip_blanks_until blanks text c hs s t)

parse_whole : (host : Bytes) (port : ℕ) → IsHost host → parse_parent host port ≡ spec host port
unfolding parse_parent
parse_whole host port h =
    let whole : (host_span host == length host) ≡ true =
      (==_iff (host_span host) (length host)).1 (host_span_whole host h) in
    rw whole refl

-- Behind the delimiter: what is left of it without its leading blanks is the port.
parse_cut :
    (host rest : Bytes) (d port : ℕ)
    → IsHost host
    → (d ≡ b':') ⊎ (d ≡ 32)
    → parse_parent (host ++ d ∷ rest) port
      ≡ (if length (skip_blanks rest) == 0 then incomplete else spec host (atoi (skip_blanks rest)))
unfolding parse_parent
parse_cut host rest d port h delimiter =
    let span = host_span_cut host rest d h delimiter in
    let part : (length host == length (host ++ d ∷ rest)) ≡ false =
      eq_other (length host) (length (host ++ d ∷ rest))
        (λ e. omega (arith, e, length-append host (d ∷ rest))) in
    let behind : drop (length host + 1) (host ++ d ∷ rest) ≡ rest =
      drop-add (length host) 1 (host ++ d ∷ rest)
      ∙ ap (drop 1) (drop-append (length host) host (d ∷ rest) refl) in
    rw (span, part, behind, take-append (length host) host (d ∷ rest) refl) refl

parse_written :
    (host : Bytes) (w : Behind) (port : ℕ)
    → IsHost host
    → IsBehind w
    → parse_parent (written host w) port
      ≡ elim (port_of w port) [ none ↦ incomplete | some p ↦ spec host p ]
parse_written host alone port h k = parse_whole host port h
parse_written host (blank d blanks) port h (delimiter, all) =
    parse_cut host blanks d port h delimiter ∙ rw (skip_blanks_all blanks all) refl
parse_written host (numbered d blanks c text) port h (delimiter, all, s, t) =
    parse_cut host (blanks ++ c ∷ text) d port h delimiter
    ∙ rw (skip_blanks_until blanks text c all s t, eq_other (length (c ∷ text)) 0 (omega arith))
        refl

-- What is added for a specification with the given host and port.
pub record IsAdded (ps : Parents) (host : Bytes) (port : ℕ) (qs : Parents) : Type 0 where
  pub valid : IsParents qs
  pub count : qs.count ≡ ps.count + 1
  pub curr : qs.curr ≡ ps.curr
  pub proxy : Proxy
  pub there : Plist.get qs.list qs.count ≡ some proxy
  pub stated : proxy.port ≡ port
  pub resolved : proxy.resolved ≡ false
  pub hostname : c_str proxy.hostname ≡ take 63 host

ulong_of_small : (k : ℕ) → k < 2 ^ 31 → ulong_of k ≡ k
unfolding ulong_of
ulong_of_small k h = ground arith

-- The result for a port, or without one.
abbrev pub IsOutcome : Parents → Bytes → Option ℕ → Option Added → Type 0
IsOutcome ps host none r = r ≡ some rejected
IsOutcome ps host (some zero) r = r ≡ some exits
IsOutcome ps host (some (suc p)) r =
    (qs : Parents) × (r ≡ some (added qs)) × IsAdded ps host (suc p) qs

add_spec-adds :
    (ps : Parents) (host : Bytes) (port : ℕ)
    → IsParents ps
    → ps.count + 1 < 2 ^ 31
    → NulFree host
    → port ≢ 0
    → (qs : Parents) × (add_spec ps (spec host port) ≡ some (added qs)) × IsAdded ps host port qs
unfolding add_spec add_proxy Plist.get
add_spec-adds ps host port h room free some_port =
    let p : Proxy = record {
      hostname = copied 63 (replicate 64 0) host;
      host = 0;
      port = port;
      resolved = false;
    } in
    let size : 63 < length {A = ℕ} (replicate 64 0) =
      omega (arith, length-replicate {0} {A = ℕ} 64 0) in
    let fits = strlcpy_fits (replicate 64 0) host 63 size free in
    let key = ulong_of_small (ps.count + 1) room in
    let place : ps.count + 1 ≡ 1 + length ps.list = omega (arith, h.counted) in
    let qs : Parents = record ps {
      list = Plist.add ps.list (ps.count + 1) (some p);
      count = ps.count + 1;
    } in
    (
      qs,
      rw (eq_other port 0 some_port, fits.0, key),
      record {
        valid = record {
          numbered = add-Numbered 1 ps.list (ps.count + 1) p h.numbered place;
          counted = length-add ps.list (ps.count + 1) p ∙ omega (arith, h.counted);
          current = omega (arith, h.current);
          small = room;
        };
        count = refl;
        curr = refl;
        proxy = p;
        there =
            ap (Plist.find_aux qs.list) key ∙ find_last 1 ps.list (ps.count + 1) p h.numbered place;
        stated = refl;
        resolved = refl;
        hostname = fits.1;
      },
    )

host-NulFree : (host : Bytes) → IsHost host → NulFree host
host-NulFree [] h = tt
host-NulFree (c ∷ host) (h, hs) = (h.0, host-NulFree host hs)

add_spec-IsOutcome :
    (ps : Parents) (host : Bytes) (port : Option ℕ)
    → IsParents ps
    → ps.count + 1 < 2 ^ 31
    → NulFree host
    → IsOutcome ps host port (add_spec ps (elim port [ none ↦ incomplete | some p ↦ spec host p ]))
add_spec-IsOutcome ps host none h room free = unfold add_spec in refl
add_spec-IsOutcome ps host (some zero) h room free = unfold add_spec in refl
add_spec-IsOutcome ps host (some (suc p)) h room free =
    add_spec-adds ps host (suc p) h room free (omega arith)

-- For a specification that is a host alone `parent_add` takes the given port; for one with a colon or
-- a space behind the host it takes the number that follows behind spaces and tabs, and rejects the
-- specification when nothing follows. With the port 0 it ends the program. Otherwise it adds one proxy
-- under the next number, with that port, the host, cut to 63 bytes, as its name, and no address yet:
-- the parents stay numbered, and the current one stays.
pub parent_add-IsAdded :
    (ps : Parents) (host : Bytes) (behind : Behind) (port : ℕ)
    → IsParents ps
    → ps.count + 1 < 2 ^ 31
    → IsHost host
    → IsBehind behind
    → IsOutcome ps host (port_of behind port) (parent_add ps (written host behind) port)
unfolding parent_add
parent_add-IsAdded ps host behind port h room text stated =
    subst (λ s. IsOutcome ps host (port_of behind port) (add_spec ps s))
      (sym (parse_written host behind port text stated))
      (add_spec-IsOutcome ps host (port_of behind port) h room (host-NulFree host text))

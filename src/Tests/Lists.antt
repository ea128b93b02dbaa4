-- ===== src/Tests/Lists.antt =====
-- The lists of cntlm-0.92.3/utils.c at concrete inputs.
use bev_search.Common.{
  ℕ, List, arith, true, false, ◌||◌, none, some, [], ◌∷◌, ◌==◌, if◌then◌else◌, ◌≡◌, refl,
}
use bev_search.CString.{codes, same_nocase, strstr, to_lower}
use bev_search.Socket.{Probe, ready, eof, so_closed}
use bev_search.Plist
use bev_search.Plist.{PNode, Plist}
use bev_search.Hlist
use bev_search.Hlist.{HNode, Hlist, node}
use bev_search.Socket.{Read, byte, Line, so_recvln}
use bev_search.Socket.Lines.{IsLine, line_text, so_recvln-IsLine}

abbrev item : ℕ → ℕ → PNode ℕ
item k a = record { key = k; aux = some a }

-- Descriptor 5 is closed on the other side.
abbrev sockets : ℕ → Probe
sockets fd = if fd == 5 then eof else ready

abbrev cached : Plist ℕ
cached = item 5 50 ∷ item 7 70 ∷ item 5 51 ∷ []

pop_run : (Plist.pop sockets cached).id ≡ 7
unfolding Plist.pop so_closed
pop_run = refl

pop-PoppedFrom_example : Plist.Pop.PoppedFrom sockets cached (Plist.pop sockets cached)
pop-PoppedFrom_example = Plist.Pop.pop-PoppedFrom sockets cached

abbrev headers : Hlist
headers =
    node (codes "Host") (codes "a.at")
    ∷ node (codes "Via") (codes "1.1 x")
    ∷ node (codes "via") (codes "1.1 NTLM")
    ∷ []

get-modify_example :
    Hlist.get (Hlist.modify headers (codes "HOST") (codes "b.at") false) (codes "host") ≡ (
      if same_nocase (codes "HOST") (codes "host")
      then (if Hlist.has headers (codes "HOST") || false then some (codes "b.at") else none)
      else Hlist.get headers (codes "host"))
get-modify_example =
    Hlist.Laws.get-modify headers (codes "HOST") (codes "b.at") (codes "host") false

subcmp_all_run :
    (Hlist.subcmp headers (codes "Via") (codes "ntlm") ≡ false)
    × (Hlist.subcmp_all headers (codes "Via") (codes "ntlm") ≡ true)
unfolding Hlist.subcmp Hlist.subcmp_all Hlist.get same_nocase strstr to_lower
subcmp_all_run = (refl, refl)

-- A line of three bytes, in a buffer of three that grows.
abbrev line_reads : List Read
line_reads = byte b'h' ∷ byte b'i' ∷ byte 10 ∷ byte b'x' ∷ []

so_recvln-IsLine_example : (l : Line) × (so_recvln line_reads 3 ≡ some l) × IsLine line_reads 3 0 l
unfolding line_text
so_recvln-IsLine_example = so_recvln-IsLine line_reads 3 (omega arith) (omega arith) (omega arith)

-- ===== src/Tests/Bodies.antt =====
-- Bodies at concrete inputs: cntlm-0.92.3/http.c.
use bev_search.Common.{true, false, some, List, [], ◌∷◌, ◌++◌, map, ◌≡◌, refl, arith}
use bev_search.CString.{codes, is_space, is_digit}
use bev_search.CString.Number.{pos, negsuc, is_pos, strtol16, hex_value, int_of_long, signed}
use bev_search.Socket.{Read, byte, failure}
use bev_search.Http.Transfer.{
  Channel, Sent, data_send, send_loop, send_round, block_size, read_block, grab, goes_on,
}
use bev_search.Http.Transfer.Amount.{IsOpen, IsSent, forwarded}
use bev_search.Http.Transfer.Complete.{data_send-IsSent}
use bev_search.Http.Chunked.{chunk_size, is_delimited, is_blank, chunked_data_send}
use bev_search.Http.Chunked.Grammar.{Chunks, print_body, IsBody}
use bev_search.Http.Chunked.Forward.{chunked_data_send-forwards}

-- A destination that takes everything, and a source of which one `read` takes two bytes.
abbrev slow : Channel
slow = record { has_dst = true; available = λ _. 1; closed = λ _. false; wrote = λ _ b. pos 1 }

slow-IsOpen : IsOpen slow
unfolding is_pos
slow-IsOpen = record { open_end = λ _. refl; takes = λ _ _. refl }

abbrev five : List Read
five = map byte (codes "hello") ++ failure ∷ []

-- The first three bytes, in two rounds.
three_sent :
    data_send slow five (pos 3)
    ≡ some (record { rest = map byte (codes "lo") ++ failure ∷ []; out = codes "hel"; rc = true })
unfolding data_send send_loop send_round block_size read_block grab goes_on is_pos
three_sent = refl

-- All of the source, which fails.
failure_met :
    data_send slow five (negsuc 0) ≡ some (record { rest = []; out = codes "hello"; rc = false })
unfolding data_send send_loop send_round block_size read_block grab goes_on is_pos
failure_met = refl

data_send-IsSent_example :
    (r : Sent) × (data_send slow five (pos 3) ≡ some r) × IsSent slow (pos 3) 0 five r
data_send-IsSent_example = data_send-IsSent slow five (pos 3) tt (omega arith)

-- A chunk of ten bytes with an extension, and a trailer of one line.
abbrev one_chunk : Chunks
one_chunk = record {
  chunks =
      record { head = codes "0A;x=1" ++ 13 ∷ []; body = codes "0123456789" ++ 13 ∷ 10 ∷ [] } ∷ [];
  last = codes "0" ++ 13 ∷ [];
  trailer = (codes "Etag: 1" ++ 13 ∷ []) ∷ [];
  blank = 13 ∷ [];
}

one_chunk-IsBody : IsBody one_chunk
unfolding chunk_size strtol16 hex_value int_of_long signed is_delimited is_space is_digit is_blank
one_chunk-IsBody = record {
  chunks = (
    record {
      inline = omega arith;
      size = 10;
      some_data = omega arith;
      reads = refl;
      fits = omega arith;
      data_size = refl;
    },
    tt,
  );
  last = (omega arith, refl);
  trailer = ((omega arith, refl), tt);
  blank = (omega arith, refl);
}

chunked_data_send-forwards_example :
    chunked_data_send slow (map byte (print_body one_chunk) ++ five)
    ≡ some (record { rest = five; out = forwarded slow (print_body one_chunk); rc = true })
chunked_data_send-forwards_example =
    chunked_data_send-forwards slow one_chunk five slow-IsOpen one_chunk-IsBody (omega arith)

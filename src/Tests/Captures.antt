-- ===== src/Tests/Captures.antt =====
-- Captures and the wait for them.
use e_rakshak_umat.Prelude.{
  ℕ, ◌+◌, ◌*◌, ◌≡◌, refl, ◌&&◌, none, some, List, [], ◌∷◌, ltb, leb, arith,
}
use e_rakshak_umat.Egress.Capture.{length, pcap_has_complete_packet, wait_for_pcap_writer, Turn}
use e_rakshak_umat.Egress.Capture.Laws.{
  big, capture_file, capture_complete, Ends, wait_for_pcap_writer-Ends,
}

abbrev zeros_4 : List ℕ
zeros_4 = 0 ∷ 0 ∷ 0 ∷ 0 ∷ []

abbrev zeros_8 : List ℕ
zeros_8 = 0 ∷ 0 ∷ 0 ∷ 0 ∷ zeros_4

abbrev zeros_20 : List ℕ
zeros_20 = 0 ∷ 0 ∷ 0 ∷ 0 ∷ 0 ∷ 0 ∷ 0 ∷ 0 ∷ 0 ∷ 0 ∷ 0 ∷ 0 ∷ zeros_8

capture_complete_example :
    pcap_has_complete_packet (some (capture_file big zeros_20 zeros_8 3 zeros_4 (7 ∷ 8 ∷ 9 ∷ [])))
    ≡ ltb 0 3 && leb 3 (length (7 ∷ 8 ∷ 9 ∷ []))
capture_complete_example =
    capture_complete big zeros_20 zeros_8 zeros_4 (7 ∷ 8 ∷ 9 ∷ []) 3 refl refl refl (omega arith)

abbrev silent : ℕ → Turn
silent i = record { clock = 1000 + 60 * i; return_code = none; file = none }

wait_for_pcap_writer-Ends_example :
    Ends 0 100 (1000 + 5000) silent (wait_for_pcap_writer 101 (1000 + 5000) 0 silent)
wait_for_pcap_writer-Ends_example =
    wait_for_pcap_writer-Ends 1000 silent (λ i. omega arith) (omega arith)

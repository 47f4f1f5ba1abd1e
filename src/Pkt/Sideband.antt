-- ===== src/Pkt/Sideband.antt =====
-- `sendSideband` cuts its data into packets that a receiver joins again.
use go_repo_dojo.Base.{
  ℕ, zero, suc, ◌+◌, ◌≤◌, ◌≡◌, refl, ◌∙◌, sym, List, [], ◌∷◌, ◌++◌, arith, Bytes, length, All, take,
  drop, take-append-drop, length-take, length-drop, append_assoc, append-nil,
}
use go_repo_dojo.Pkt.{
  pkt_line_header, chunk_len, send_loop, send_sideband, sideband_max_chunk, large_packet_max,
}

-- The payloads of the packets that carry a text, and those packets.
abbrev pub joined : List Bytes → Bytes
joined [] = []
joined (p ∷ ps) = p ++ joined ps

abbrev pub packets : ℕ → List Bytes → Bytes
packets band [] = []
packets band (p ∷ ps) = (pkt_line_header (length p + 5) ++ (band ∷ p)) ++ packets band ps

-- A payload is not empty, and its packet with header and band is no larger than allowed.
abbrev pub Fits : Bytes → Type 0
Fits p = (1 ≤ length p) × (length p + 5 ≤ large_packet_max)

-- What has been written behind `w` is packets for one band whose payloads spell `s`.
pub record Sent (band : ℕ) (s w out : Bytes) : Type 0 where
  pub payloads : List Bytes
  pub joins : joined payloads ≡ s
  pub written : out ≡ w ++ packets band payloads
  pub fits : All Fits payloads

-- one packet in front of those of the rest
Sent-cons :
    (n band : ℕ) (s w out : Bytes)
    → 1 ≤ n
    → n ≤ length s
    → n ≤ sideband_max_chunk
    → Sent band (drop n s) (w ++ (pkt_line_header (n + 5) ++ (band ∷ take n s))) out
    → Sent band s w out
Sent-cons n band s w out lo hi max f =
    let len : length (take n s) ≡ n = omega (arith, length-take n s) in
    record {
      payloads = take n s ∷ f.payloads;
      joins = rw f.joins (take-append-drop n s);
      written = f.written ∙ rw len (append_assoc w _ (packets band f.payloads));
      fits = ((omega arith, omega arith), f.fits);
    }

chunk_len_bounds :
    (n : ℕ) → 1 ≤ n → (1 ≤ chunk_len n) × (chunk_len n ≤ n) × (chunk_len n ≤ sideband_max_chunk)
unfolding chunk_len
chunk_len_bounds n h = ground arith

send_loop-Sent :
    (fuel band : ℕ) (s w : Bytes) → length s ≤ fuel → Sent band s w (send_loop fuel band s w)
unfolding send_loop
send_loop-Sent fuel band [] w h = record {
  payloads = [];
  joins = refl;
  written = sym (append-nil w);
  fits = tt;
}
send_loop-Sent zero band (c ∷ s) w h = absurd (omega arith)
send_loop-Sent (suc fuel) band (c ∷ s) w h =
    Sent-cons n band (c ∷ s) w _ b.0 b.1 b.2
      (send_loop-Sent fuel band (drop n (c ∷ s)) _ (omega (arith, b.0, length-drop n (c ∷ s))))
  where
    n : ℕ
    n = chunk_len (length (c ∷ s))

    b : (1 ≤ n) × (n ≤ length (c ∷ s)) × (n ≤ sideband_max_chunk)
    b = chunk_len_bounds (length (c ∷ s)) (omega arith)

-- The output keeps what was there, and behind it come packets of at most 65,520 bytes, none of them
-- empty, whose payloads spell the data. No data sends nothing.
pub send_sideband-Sent :
    (w : Bytes) (band : ℕ) (s : Bytes)
    → Sent band s w (send_sideband w band s) × (send_sideband w band [] ≡ w)
unfolding send_sideband
send_sideband-Sent w band s = (send_loop-Sent (length s) band s w (omega arith), refl)

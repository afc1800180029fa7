-- ===== src/Repair/Overwrite.antt =====
-- Overwriting packets of a stored file, byte by byte.
use boost_asio_threadpool.Base.{
  ==_iff, ==_ne, ltb→le, ltb→lt, ◌≢◌, Bool-cases, List, [], ap, arith, drop, false, get_elem?,
  get_elem?_beyond, inl, inr, length, length-drop, length-take, length-append, ltb, refl, suc, sym,
  take, zero, ℕ, ◌*◌, ◌++◌, ◌+◌, ◌-◌, ◌/◌, ◌<◌, ◌==◌, ◌∙◌, ◌∷◌, ◌≡◌, ◌≤◌,
}
use mathlib.Core.Bool.{false≢true}
use boost_asio_threadpool.Receive.Missing.{contains}
use boost_asio_threadpool.Repair.{overwrite}
use boost_asio_threadpool.Upload.{Packet, file_data_len}
use boost_asio_threadpool.Upload.ReTransmit.{chunk, packets_of}

get_elem?-take : (n : ℕ) (xs : List ℕ) (j : ℕ) → j < n → get_elem? (take n xs) j ≡ get_elem? xs j
get_elem?-take zero xs j h = absurd (omega arith)
get_elem?-take (suc n) [] j h = refl
get_elem?-take (suc n) (x ∷ xs) zero h = refl
get_elem?-take (suc n) (x ∷ xs) (suc j) h = get_elem?-take n xs j (omega arith)

get_elem?-drop :
    (n : ℕ) (xs : List ℕ) (j k : ℕ) → k ≡ n + j → get_elem? (drop n xs) j ≡ get_elem? xs k
get_elem?-drop zero xs j k h = ap (get_elem? xs) (omega arith)
get_elem?-drop (suc n) [] j k h = refl
get_elem?-drop (suc n) (x ∷ xs) j zero h = absurd (omega arith)
get_elem?-drop (suc n) (x ∷ xs) j (suc k) h = get_elem?-drop n xs j k (omega arith)

get_elem?-append_left :
    (xs ys : List ℕ) (j : ℕ) → j < length xs → get_elem? (xs ++ ys) j ≡ get_elem? xs j
get_elem?-append_left [] ys j h = absurd (omega arith)
get_elem?-append_left (x ∷ xs) ys zero h = refl
get_elem?-append_left (x ∷ xs) ys (suc j) h = get_elem?-append_left xs ys j (omega arith)

get_elem?-append_right :
    (xs ys : List ℕ) (j k : ℕ) → k ≡ length xs + j → get_elem? (xs ++ ys) k ≡ get_elem? ys j
get_elem?-append_right [] ys j k h = ap (get_elem? ys) (omega arith)
get_elem?-append_right (x ∷ xs) ys j zero h = absurd (omega arith)
get_elem?-append_right (x ∷ xs) ys j (suc k) h = get_elem?-append_right xs ys j k (omega arith)

-- Two lists with the same elements.
same_elems : (xs ys : List ℕ) → ((j : ℕ) → get_elem? xs j ≡ get_elem? ys j) → xs ≡ ys
same_elems [] [] h = refl
same_elems [] (y ∷ ys) h = let e = h 0 in cc
same_elems (x ∷ xs) [] h = let e = h 0 in cc
same_elems (x ∷ xs) (y ∷ ys) h =
    let e = h 0 in
    let same : x ≡ y = cc in ap (λ z. z ∷ xs) same ∙ ap (◌∷◌ y) (same_elems xs ys (λ j. h (suc j)))

-- The bytes of the place are the new ones, the others the old ones.
overwrite_inside :
    (content : List ℕ) (start : ℕ) (bytes : List ℕ) (j k : ℕ)
    → k ≡ start + j
    → j < length bytes
    → get_elem? (overwrite content start bytes) k ≡ get_elem? bytes j
unfolding overwrite
overwrite_inside content zero bytes j k e h =
    ap (get_elem? (bytes ++ drop (length bytes) content)) (omega arith)
    ∙ get_elem?-append_left bytes (drop (length bytes) content) j h
overwrite_inside content (suc start) bytes j zero e h = absurd (omega arith)
overwrite_inside [] (suc start) bytes j (suc k) e h =
    overwrite_inside [] start bytes j k (omega arith) h
overwrite_inside (x ∷ content) (suc start) bytes j (suc k) e h =
    overwrite_inside content start bytes j k (omega arith) h

overwrite_behind :
    (content : List ℕ) (start : ℕ) (bytes : List ℕ) (k : ℕ)
    → start + length bytes ≤ k
    → get_elem? (overwrite content start bytes) k ≡ get_elem? content k
unfolding overwrite
overwrite_behind content zero bytes k h =
    get_elem?-append_right bytes (drop (length bytes) content) (k - length bytes) k (omega arith)
    ∙ get_elem?-drop (length bytes) content (k - length bytes) k (omega arith)
overwrite_behind content (suc start) bytes zero h = absurd (omega arith)
overwrite_behind [] (suc start) bytes (suc k) h = overwrite_behind [] start bytes k (omega arith)
overwrite_behind (x ∷ content) (suc start) bytes (suc k) h =
    overwrite_behind content start bytes k (omega arith)

overwrite_before :
    (content : List ℕ) (start : ℕ) (bytes : List ℕ) (k : ℕ)
    → k < start
    → start ≤ length content
    → get_elem? (overwrite content start bytes) k ≡ get_elem? content k
unfolding overwrite
overwrite_before content zero bytes k h fits = absurd (omega arith)
overwrite_before [] (suc start) bytes k h fits = absurd (omega arith)
overwrite_before (x ∷ content) (suc start) bytes zero h fits = refl
overwrite_before (x ∷ content) (suc start) bytes (suc k) h fits =
    overwrite_before content start bytes k (omega arith) (omega arith)

length-overwrite :
    (content : List ℕ) (start : ℕ) (bytes : List ℕ)
    → start + length bytes ≤ length content
    → length (overwrite content start bytes) ≡ length content
unfolding overwrite
length-overwrite content zero bytes h =
    omega
      (arith, length-append bytes (drop (length bytes) content), length-drop (length bytes) content)
length-overwrite [] (suc start) bytes h = absurd (omega arith)
length-overwrite (x ∷ content) (suc start) bytes h =
    ap suc (length-overwrite content start bytes (omega arith))

-- The packets written one after the other.
abbrev pub write_packets : List Packet → List ℕ → List ℕ
write_packets [] stored = stored
write_packets ((seq, bytes) ∷ packets) stored =
    write_packets packets (overwrite stored (seq * file_data_len) bytes)

-- Each packet has at least a byte of the file.
abbrev pub AreWithin : List ℕ → List ℕ → Type 0
AreWithin content [] = Unit {0}
AreWithin content (seq ∷ seqs) = (seq * file_data_len < length content) × AreWithin content seqs

module _ (content : List ℕ) where
  -- The stored file has the content's bytes outside the packets of the list.
  pub record DiffersIn (seqs : List ℕ) (stored : List ℕ) : Type 0 where
    pub sized : length stored ≡ length content
    pub same :
        (k : ℕ)
        → contains (k / file_data_len) seqs ≡ false
        → get_elem? stored k ≡ get_elem? content k

  length-chunk :
      (seq : ℕ)
      → seq * file_data_len < length content
      → (seq * file_data_len + length (chunk content seq) ≤ length content)
        × ((k : ℕ)
            → k < (seq + 1) * file_data_len
            → k < length content
            → k < seq * file_data_len + length (chunk content seq))
  length-chunk seq h =
      let dropped = length-drop (seq * file_data_len) content in
      let taken = length-take file_data_len (drop (seq * file_data_len) content) in
      (omega (arith, dropped, taken), λ k a c. omega (arith, dropped, taken))

  module _ (seq : ℕ) (seqs : List ℕ) (stored : List ℕ) (h : seq * file_data_len < length content)
      (d : DiffersIn (seq ∷ seqs) stored) where
    -- A byte of no packet of the list.
    apart :
        (k : ℕ)
        → k / file_data_len ≢ seq
        → contains (k / file_data_len) seqs ≡ false
        → get_elem? stored k ≡ get_elem? content k
    apart k ne outside = d.same k (rw (==_ne (k / file_data_len) seq ne) outside)

    -- A byte behind the packet: there is none, or it is of another packet.
    behind :
        (k : ℕ)
        → seq * file_data_len + length (chunk content seq) ≤ k
        → contains (k / file_data_len) seqs ≡ false
        → get_elem? stored k ≡ get_elem? content k
    behind k a outside = elim (Bool-cases (k / file_data_len == seq)) [
      | inl e ↦
          let own = (==_iff (k / file_data_len) seq).0 e in
          let dropped = length-drop (seq * file_data_len) content in
          let taken = length-take file_data_len (drop (seq * file_data_len) content) in
          let past : length content ≤ k = omega (arith, dropped, taken) in
          get_elem?_beyond stored k (omega (arith, d.sized)) ∙ sym (get_elem?_beyond content k past)
      | inr ne ↦ apart k (λ e. false≢true (sym ne ∙ (==_iff (k / file_data_len) seq).1 e)) outside
    ]

    same_after :
        (k : ℕ)
        → contains (k / file_data_len) seqs ≡ false
        → get_elem? (overwrite stored (seq * file_data_len) (chunk content seq)) k
          ≡ get_elem? content k
    same_after k outside = elim (Bool-cases (ltb k (seq * file_data_len))) [
      | inl before ↦
          let below = ltb→lt k (seq * file_data_len) before in
          overwrite_before stored (seq * file_data_len) (chunk content seq) k below
            (omega (arith, d.sized))
          ∙ apart k (omega arith) outside
      | inr after ↦ elim (Bool-cases (ltb k (seq * file_data_len + length (chunk content seq)))) [
        | inl inside ↦
            let above = ltb→le k (seq * file_data_len) after in
            let within = ltb→lt k (seq * file_data_len + length (chunk content seq)) inside in
            let taken = length-take file_data_len (drop (seq * file_data_len) content) in
            let j = k - seq * file_data_len in
            overwrite_inside stored (seq * file_data_len) (chunk content seq) j k (omega arith)
              (omega arith)
            ∙ (get_elem?-take file_data_len (drop (seq * file_data_len) content) j (omega arith)
                ∙ get_elem?-drop (seq * file_data_len) content j k (omega arith))
        | inr past ↦
            let beyond = ltb→le k (seq * file_data_len + length (chunk content seq)) past in
            overwrite_behind stored (seq * file_data_len) (chunk content seq) k beyond
            ∙ behind k beyond outside
      ]
    ]

    overwritten : DiffersIn seqs (overwrite stored (seq * file_data_len) (chunk content seq))
    overwritten = record {
      sized =
          length-overwrite stored (seq * file_data_len) (chunk content seq)
            (omega (arith, (length-chunk seq h).0, d.sized))
          ∙ d.sized;
      same = same_after;
    }

  -- The content's packets, written over a file that differs in no other, give the content.
  pub write_packets_lem :
      (seqs : List ℕ) (stored : List ℕ)
      → AreWithin content seqs
      → DiffersIn seqs stored
      → write_packets (packets_of content seqs) stored ≡ content
  write_packets_lem [] stored within d = same_elems stored content (λ k. d.same k refl)
  write_packets_lem (seq ∷ seqs) stored within d =
      write_packets_lem seqs (overwrite stored (seq * file_data_len) (chunk content seq)) within.1
        (overwritten seq seqs stored within.0 d)

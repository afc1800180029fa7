-- ===== src/Repair/ReWrite.antt =====
-- ReWriteCausedByHash of file.cpp with ServerHandleDamagedHashBag of logicsystem.cpp: what the thread
-- finds of the packet of the handler that has started it.
use boost_asio_threadpool.Base.{
  Bool, List, Option, [], ap, arith, get_elem?, if◌then◌else◌, le→leb, length, none, refl, some,
  suc, sym, true, false, ℕ, ◌*◌, ◌++◌, ◌+◌, ◌<◌, ◌∙◌, ◌∷◌, ◌≡◌,
}
use boost_asio_threadpool.Base.Outcome.{Outcome, >>=_returns, returns, undefined, ◌>>=◌}
use boost_asio_threadpool.Base64.{Bio}
use boost_asio_threadpool.Hash.{Md5, verify_file_hash, verify_file_hash-answers}
use boost_asio_threadpool.Repair.{
  RepairFile, Repaired, complete, verify_again, dangling, add_hash_retransmit_data_packet,
  handler_ends, overwrite, re_write_caused_by_hash, re_write_ends, re_write_packet, re_write_result,
  re_write_turn, server_handle_damaged_hash_bag,
}
use boost_asio_threadpool.Server.Data.{decode_encoded}
use boost_asio_threadpool.Upload.{file_data_len}
use boost_asio_threadpool.Upload.SendFile.{base64_encode_some}

-- The entry behind a list.
get_elem?-last {ℓ} :
    {A : Type ℓ} (xs : List A) (x : A) → get_elem? (xs ++ (x ∷ [])) (length xs) ≡ some x
get_elem?-last [] x = refl
get_elem?-last (y ∷ xs) x = get_elem?-last xs x

length-last {ℓ} : {A : Type ℓ} (xs : List A) (x : A) → length (xs ++ (x ∷ [])) ≡ length xs + 1
length-last [] x = refl
length-last (y ∷ xs) x = ap suc (length-last xs x) ∙ omega arith

-- The handler's packet is added to the file, which the thread has caught up with.
abbrev pub added : ℕ → List ℕ → RepairFile → RepairFile
added seq bytes file = record file { hash_datas = file.hash_datas ++ ((seq, some bytes) ∷ []) }

-- The same with the packet written.
abbrev written : ℕ → List ℕ → RepairFile → RepairFile
written seq bytes file = record (added seq bytes file) {
  saved = overwrite file.saved (seq * file_data_len) bytes;
  rewrite_index = file.rewrite_index + 1;
}

abbrev pub IsCaughtUp : RepairFile → Type 0
IsCaughtUp file = file.rewrite_index ≡ length file.hash_datas

length-dangling : (datas : List (ℕ × Option (List ℕ))) → length (dangling datas) ≡ length datas
unfolding dangling
length-dangling [] = refl
length-dangling ((seq, bytes) ∷ datas) = ap suc (length-dangling datas)

dangling-append :
    (datas : List (ℕ × Option (List ℕ))) (seq : ℕ) (bytes : Option (List ℕ))
    → dangling (datas ++ ((seq, bytes) ∷ [])) ≡ dangling datas ++ ((seq, none) ∷ [])
unfolding dangling
dangling-append [] seq bytes = refl
dangling-append (e ∷ datas) seq bytes = ap (◌∷◌ (e.0, none)) (dangling-append datas seq bytes)

handle_added :
    (thread : RepairFile → Outcome (RepairFile × Option Repaired)) (b : Bio) (seq : ℕ)
    (bytes : List ℕ) (file : RepairFile)
    → 0 < length bytes
    → server_handle_damaged_hash_bag thread b (some file) seq (b.text bytes)
      ≡ (thread (added seq bytes file) >>= (λ r. returns (handler_ends r.0, r.1)))
unfolding server_handle_damaged_hash_bag add_hash_retransmit_data_packet
handle_added thread b seq [] file h = absurd (omega arith)
handle_added thread b seq (x ∷ xs) file h =
    >>=_returns _ (decode_encoded b x xs (b.text (x ∷ xs)) (base64_encode_some b (x ∷ xs) h)) refl

module _ (m : Md5) where
  turn_last :
      (seq x : ℕ) (bytes : List ℕ) (file : RepairFile)
      → get_elem? file.hash_datas file.rewrite_index ≡ some (seq, some (x ∷ bytes))
      → length file.hash_datas ≡ file.rewrite_index + 1
      → re_write_turn m true file
        ≡ re_write_ends m (record file {
          saved = overwrite file.saved (seq * file_data_len) (x ∷ bytes);
          rewrite_index = file.rewrite_index + 1;
        })
  unfolding re_write_turn re_write_packet
  turn_last seq x bytes file e h =
      rw (e, le→leb (length file.hash_datas) (file.rewrite_index + 1) (omega arith)) refl

  ends :
      (verified : Bool) (file : RepairFile)
      → verify_file_hash m (some file.saved) file.file_hash ≡ returns verified
      → re_write_ends m file ≡ returns (re_write_result verified file)
  unfolding re_write_ends
  ends verified file v = >>=_returns _ v refl

  -- The thread stops after the check.
  stops :
      (verified : Bool) (n : ℕ) (file after : RepairFile)
      → re_write_turn m true file ≡ returns (re_write_result verified after)
      → re_write_caused_by_hash m (suc n) file ≡ returns (re_write_result verified after)
  unfolding re_write_caused_by_hash re_write_result
  stops true n file after e = >>=_returns _ e refl
  stops false n file after e = >>=_returns _ e refl

  -- A thread that gets its turn while the handler runs writes the packet, and checks the file.
  re_write_one :
      (seq x : ℕ) (bytes : List ℕ) (file : RepairFile) (verified : Bool)
      → IsCaughtUp file
      → verify_file_hash m
          (some (overwrite file.saved (seq * file_data_len) (x ∷ bytes)))
          file.file_hash
        ≡ returns verified
      → re_write_caused_by_hash m 1 (added seq (x ∷ bytes) file)
        ≡ returns (re_write_result verified (written seq (x ∷ bytes) file))
  re_write_one seq x bytes file verified c v =
      let found = get_elem?-last file.hash_datas (seq, some (x ∷ bytes)) in
      let size = length-last file.hash_datas (seq, some (x ∷ bytes)) in
      let at = ap (get_elem? (file.hash_datas ++ ((seq, some (x ∷ bytes)) ∷ []))) c ∙ found in
      stops verified 0 (added seq (x ∷ bytes) file) _ (
        turn_last seq x bytes (added seq (x ∷ bytes) file) at (omega (arith, c, size))
        ∙ ends verified _ v)

  -- Where the handler ends before the thread that it starts gets its turn, the thread's read of the
  -- packet is undefined behaviour: `m_HashDatas` has a reference to the handler's vector, which is gone.
  -- The packet is not empty, and the thread has caught up with the packets before it.
  pub re_write_dangles :
      (b : Bio) (seq : ℕ) (bytes : List ℕ) (file : RepairFile)
      → 0 < length bytes
      → IsCaughtUp file
      → (after : RepairFile) × (server_handle_damaged_hash_bag
            (λ f. returns (f, none))
            b
            (some file)
            seq
            (b.text bytes)
          ≡ returns (after, none))
        × ((opens : Bool) → re_write_turn m opens after ≡ undefined)
  unfolding handler_ends re_write_turn re_write_packet
  re_write_dangles b seq bytes file h c =
      let added_all = file.hash_datas ++ ((seq, some bytes) ∷ []) in
      let found : get_elem? (dangling added_all) file.rewrite_index ≡ some (seq, none) =
        ap (λ datas. get_elem? datas file.rewrite_index)
          (dangling-append file.hash_datas seq (some bytes))
        ∙ (ap (get_elem? (dangling file.hash_datas ++ ((seq, none) ∷ [])))
              (c ∙ sym (length-dangling file.hash_datas))
            ∙ get_elem?-last (dangling file.hash_datas) (seq, none)) in
      (
        handler_ends (added seq bytes file),
        handle_added (λ f. returns (f, none)) b seq bytes file h,
        λ opens. ap (λ e. re_write_packet m opens e (handler_ends (added seq bytes file))) found,
      )

  -- What the handler leaves where the thread it starts gets its turn: the packet is written, and the
  -- thread says whether the hash is the client's now.
  pub record Handled (b : Bio) (seq : ℕ) (bytes : List ℕ) (file : RepairFile) : Type 0 where
    pub after : RepairFile
    pub verified : Bool
    pub handles :
        server_handle_damaged_hash_bag
          (re_write_caused_by_hash m 1)
          b
          (some file)
          seq
          (b.text bytes)
        ≡ returns (after, some (if verified then complete else verify_again))
    pub checks : verify_file_hash m (some after.saved) file.file_hash ≡ returns verified
    pub writes : after.saved ≡ overwrite file.saved (seq * file_data_len) bytes
    pub hashed : after.file_hash ≡ file.file_hash
    pub caught_up : IsCaughtUp after

  module _ (b : Bio) where
    answered :
        (seq x : ℕ) (bytes : List ℕ) (file : RepairFile) (verified : Bool)
        → IsCaughtUp file
        → verify_file_hash m
            (some (overwrite file.saved (seq * file_data_len) (x ∷ bytes)))
            file.file_hash
          ≡ returns verified
        → Handled b seq (x ∷ bytes) file
    unfolding handler_ends re_write_result dangling
    answered seq x bytes file true c v = record {
      after = handler_ends (written seq (x ∷ bytes) file);
      verified = true;
      handles =
          handle_added (re_write_caused_by_hash m 1) b seq (x ∷ bytes) file (omega arith)
          ∙ >>=_returns _ (re_write_one seq x bytes file true c v) refl;
      checks = v;
      writes = refl;
      hashed = refl;
      caught_up = omega (
        arith,
        c,
        length-last file.hash_datas (seq, some (x ∷ bytes)),
        length-dangling (file.hash_datas ++ ((seq, some (x ∷ bytes)) ∷ [])),
      );
    }
    answered seq x bytes file false c v = record {
      after = handler_ends (re_write_result false (written seq (x ∷ bytes) file)).0;
      verified = false;
      handles =
          handle_added (re_write_caused_by_hash m 1) b seq (x ∷ bytes) file (omega arith)
          ∙ >>=_returns _ (re_write_one seq x bytes file false c v) refl;
      checks = v;
      writes = refl;
      hashed = refl;
      caught_up = refl;
    }

    pub handle_packet :
        (seq : ℕ) (bytes : List ℕ) (file : RepairFile)
        → 0 < length bytes
        → IsCaughtUp file
        → Handled b seq bytes file
    handle_packet seq [] file h c = absurd (omega arith)
    handle_packet seq (x ∷ bytes) file h c =
        let (verified, v) =
          verify_file_hash-answers m (overwrite file.saved (seq * file_data_len) (x ∷ bytes))
            file.file_hash in
        answered seq x bytes file verified c v

-- ===== src/Delivery/Written.antt =====
-- FlushToDisk of file.cpp, run to its end: what it leaves of the file.
use boost_asio_threadpool.Base.{
  Bool-cases, List, ap, false, inl, inr, refl, subst, sym, suc, zero, ℕ, ◌∙◌, ◌≡◌,
}
use boost_asio_threadpool.Base.Outcome.{returns, returns-injective, >>=-eq-returns}
use boost_asio_threadpool.Receive.{FileToReceve, flush_to_disk}
use boost_asio_threadpool.Receive.Flush.{flush_to_disk-IsValid, flush_to_disk-returns}
use boost_asio_threadpool.Receive.Run.{flush_all, flush_all_done, flush_all_going}
use boost_asio_threadpool.Receive.Transfer.{IsValid}

module _ (p : ℕ → List ℕ) where
  -- The disk thread does not change what came with the request, nor which packets have arrived.
  pub record IsWritten (file after : FileToReceve) : Type 0 where
    pub valid : IsValid p after
    pub counted : after.total_packets ≡ file.total_packets
    pub hashed : after.file_hash ≡ file.file_hash
    pub flags : after.all_received_flags ≡ file.all_received_flags

  unchanged : (file : FileToReceve) → IsValid p file → IsWritten file file
  unchanged file v = record { valid = v; counted = refl; hashed = refl; flags = refl }

  pub flush_all-IsWritten :
      (n : ℕ) (file after : FileToReceve)
      → IsValid p file
      → flush_all n file ≡ returns after
      → IsWritten file after
  unfolding flush_all
  flush_all-IsWritten zero file after v e =
      subst (IsWritten file) (returns-injective e) (unchanged file v)
  flush_all-IsWritten (suc n) file after v e = elim (Bool-cases file.flush_finished) [
    | inl done ↦
        subst (IsWritten file) (returns-injective (sym (flush_all_done n file done) ∙ e))
          (unchanged file v)
    | inr going ↦
        let (next, w, e') =
          >>=-eq-returns (flush_to_disk false file) (flush_all n)
            (sym (flush_all_going n file going) ∙ e) in
        let rest = flush_all-IsWritten n next after (flush_to_disk-IsValid p file v next w) e' in
        let same = (flush_to_disk-returns p false file next w).1 in
        record {
          valid = rest.valid;
          counted = rest.counted ∙ ap (λ f. f.total_packets) same;
          hashed = rest.hashed ∙ ap (λ f. f.file_hash) same;
          flags = rest.flags ∙ ap (λ f. f.all_received_flags) same;
        }
  ]

-- ===== src/Queue/Ledger.antt =====
-- The account of a byte stream that is cut into numbered packets: what has been handed out, and
-- what the packets at hand must hold.
use mathlib.Core.Logic.Or
use mathlib.Core.List.{
  Perm, Mem, Mem-prop, Nodup, Nodup-cons, mem-cons, mem-map_of_mem, mem-cons_self,
}
use mathlib.Core.List.Perm
use native.Mathlib.Bridge.{le_prop}
use native.Mathlib.Nat.{ℕ_set}
use sing_xhttp.Common.{
  ℕ, zero, suc, ◌+◌, ◌^◌, ◌<◌, ◌≡◌, refl, ap, sym, subst, ◌∙◌, ◌≢◌, ◌⊎◌, inl, inr, List, [], ◌∷◌,
  ◌++◌, map, append-nil, append_assoc, arith, take, drop, take-append-drop,
}
use sing_xhttp.Common.Text.{Bytes}
use sing_xhttp.Queue.Heap.{Packet}

abbrev pub seq_of : Packet → ℕ
seq_of p = p.seq

module _ (payload_of : ℕ → Bytes) where
  -- The payloads of the first `n` packets, one after the other.
  abbrev pub stream : ℕ → Bytes
  stream zero = []
  stream (suc n) = stream n ++ payload_of n

  -- A packet whose turn has come holds what is left of its payload, a later one all of it.
  abbrev pub Fits : ℕ → Bytes → Packet → Type 0
  Fits next consumed p =
      (p.seq ≡ next → consumed ++ p.payload ≡ payload_of next)
      × (next < p.seq → p.payload ≡ payload_of p.seq)
      × (p.seq + 1 < 2 ^ 64)

  pub Fits-prop : (next : ℕ) (consumed : Bytes) (p : Packet) → IsProp (Fits next consumed p)
  Fits-prop next consumed p = hlevel (ℕ_set, le_prop)

  -- The packets at hand continue the stream of which `out` has been handed out.
  pub record Ledger (out : Bytes) (next : ℕ) (ps : List Packet) : Type 0 where
    pub consumed : Bytes
    pub total : out ≡ stream next ++ consumed
    pub fits : (p : Packet) → Mem p ps → Fits next consumed p
    pub distinct : Nodup (map seq_of ps)
    pub held : (consumed ≡ []) ⊎ Mem next (map seq_of ps)

  pub Ledger-perm :
      {out : Bytes} {next : ℕ} {ps rs : List Packet}
      → Perm ps rs
      → Ledger out next ps
      → Ledger out next rs
  Ledger-perm perm l = record {
    consumed = l.consumed;
    total = l.total;
    fits = λ p m. l.fits p ((Perm.mem_iff perm).1 m);
    distinct = Perm.nodup (Perm.map seq_of perm) l.distinct;
    held = elim l.held [ inl e ↦ inl e | inr m ↦ inr ((Perm.mem_iff (Perm.map seq_of perm)).0 m) ];
  }

  -- A packet of another number may be left out.
  pub Ledger-drop :
      {out : Bytes} {next : ℕ} {p : Packet} {ps : List Packet}
      → p.seq ≢ next
      → Ledger out next (p ∷ ps)
      → Ledger out next ps
  Ledger-drop stale l = record {
    consumed = l.consumed;
    total = l.total;
    fits = λ r m. l.fits r (mem-cons.1 (Or.inr m));
    distinct = (Nodup-cons.0 l.distinct).1;
    held = elim l.held [
      | inl e ↦ inl e
      | inr m ↦ inr (Or.elim Mem-prop (mem-cons.0 m) (λ e. absurd (stale (sym e))) (λ k. k))
    ];
  }

  others_differ :
      {out : Bytes} {next : ℕ} {p : Packet} {ps : List Packet}
      → p.seq ≡ next
      → Ledger out next (p ∷ ps)
      → (r : Packet) → Mem r ps
      → r.seq ≢ next
  others_differ {p} {ps} turn l r m e =
      (Nodup-cons.0 l.distinct).0
        (subst (λ s. Mem s (map seq_of ps)) (e ∙ sym turn) (mem-map_of_mem seq_of m))

  -- Part of the packet whose turn it is has been handed out.
  pub Ledger-take :
      (n : ℕ) {out : Bytes} {next : ℕ} {p : Packet} {ps : List Packet}
      → p.seq ≡ next
      → Ledger out next (p ∷ ps)
      → Ledger (out ++ take n p.payload) next (record p { payload = drop n p.payload } ∷ ps)
  Ledger-take n {out} {next} {p} {ps} turn l = record {
    consumed = l.consumed ++ take n p.payload;
    total = rw l.total (append_assoc (stream next) l.consumed (take n p.payload));
    fits = λ r m. Or.elim (Fits-prop next _ r) (mem-cons.0 m) (first r) (other r);
    distinct = l.distinct;
    held = inr (mem-cons.1 (Or.inl (sym turn)));
  }
    where
      mine : Fits next l.consumed p
      mine = l.fits p mem-cons_self

      whole : (l.consumed ++ take n p.payload) ++ drop n p.payload ≡ payload_of next
      whole =
          append_assoc l.consumed (take n p.payload) (drop n p.payload)
          ∙ ap (◌++◌ l.consumed) (take-append-drop n p.payload)
          ∙ mine.0 turn

      first :
          (r : Packet)
          → r ≡ record p { payload = drop n p.payload }
          → Fits next (l.consumed ++ take n p.payload) r
      first r e = rw e ((λ _. whole), (λ late. absurd (omega arith)), mine.2)

      other : (r : Packet) → Mem r ps → Fits next (l.consumed ++ take n p.payload) r
      other r m =
          let old = l.fits r (mem-cons.1 (Or.inr m)) in
          ((λ e. absurd (others_differ turn l r m e)), old.1, old.2)

  -- All of the packet whose turn it is has been handed out.
  pub Ledger-finish :
      {out : Bytes} {next : ℕ} {p : Packet} {ps : List Packet}
      → p.seq ≡ next
      → Ledger out next (p ∷ ps)
      → Ledger (out ++ p.payload) (suc next) ps
  Ledger-finish {out} {next} {p} {ps} turn l = record {
    consumed = [];
    total =
        rw (append-nil, l.total)
          (append_assoc (stream next) l.consumed p.payload
            ∙ ap (◌++◌ (stream next)) ((l.fits p mem-cons_self).0 turn));
    fits = λ r m.
        let old = l.fits r (mem-cons.1 (Or.inr m)) in
        ((λ e. old.1 (omega arith) ∙ ap payload_of e), (λ late. old.1 (omega arith)), old.2);
    distinct = (Nodup-cons.0 l.distinct).1;
    held = inl refl;
  }

-- ===== src/Pipe/Tiles.antt =====
-- The cuts of a stream follow each other without a gap.
use cwnd_warm_up_proxy.Prelude.{
  ℕ, ◌+◌, ◌<◌, ◌≡◌, refl, sym, ap, ◌∙◌, ◌⊎◌, inl, inr, List, [], ◌∷◌, ◌++◌, some, length,
  length-append, All, Bool-cases, ◌==◌, arith,
}
use cwnd_warm_up_proxy.Reorder.Receive.{Packet}
use cwnd_warm_up_proxy.Pipe.Cuts.{cut_of, cut_of-append, cut_of_new}

abbrev pub StartsAt : List Packet → ℕ → Type 0
StartsAt history n = (p : List ℕ) × (cut_of history n ≡ some p) × (0 < length p)

-- A frame with data starts at this position, or the stream ends there.
abbrev pub IsJoint : List ℕ → List Packet → ℕ → Type 0
IsJoint stream history n = (n ≡ length stream) ⊎ StartsAt history n

pub record Tiles (stream : List ℕ) (history : List Packet) : Type 0 where
  pub first : IsJoint stream history 0
  pub follows :
      (k : ℕ) (p : List ℕ)
      → cut_of history k ≡ some p
      → 0 < length p
      → IsJoint stream history (k + length p)

pub no-Tiles : Tiles [] []
no-Tiles = record { first = inl refl; follows = λ k p h l. absurd (ground (arith, h)) }

last_cut :
    (fs : List Packet) (f : Packet) (k : ℕ) (p : List ℕ)
    → cut_of (fs ++ (f ∷ [])) k ≡ some p
    → (cut_of fs k ≡ some p) ⊎ ((f.seq ≡ k) × (f.payload ≡ p))
last_cut [] f k p h = ground (arith, h)
last_cut (g ∷ fs) f k p h = ground (arith, h, last_cut fs f k p)

module _ (stream : List ℕ) (history : List Packet) (f : Packet) (at : f.seq ≡ length stream)
    (before : All (λ (g : Packet). g.seq < f.seq) history) (t : Tiles stream history) where
  -- A joint of the cuts before is one of the cuts with the next.
  joint : (n : ℕ) → IsJoint stream history n → IsJoint (stream ++ f.payload) (history ++ (f ∷ [])) n
  joint n (inr (p, e, l)) = inr (p, cut_of-append history (f ∷ []) n p e, l)
  joint n (inl e) = elim (Bool-cases (length f.payload == 0)) [
    | inl no_data ↦ inl (ground (arith, e, no_data, length-append stream f.payload))
    | inr some_data ↦
        let here : f.seq ≡ n = at ∙ sym e in
        inr (
          f.payload,
          ap (cut_of (history ++ (f ∷ []))) (sym here) ∙ cut_of_new history f before,
          ground (arith, some_data),
        )
  ]

  pub next-Tiles : Tiles (stream ++ f.payload) (history ++ (f ∷ []))
  next-Tiles = record {
    first = joint 0 t.first;
    follows = λ k p h l. elim (last_cut history f k p h) [
      | inl old ↦ joint (k + length p) (t.follows k p old l)
      | inr (here, same) ↦
          inl (omega (arith, here, at, ap length same, length-append stream f.payload))
    ];
  }

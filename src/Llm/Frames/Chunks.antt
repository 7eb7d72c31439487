-- ===== src/Llm/Frames/Chunks.antt =====
-- llm/rpc_frames.py, `FrameDecoder.feed`: how the bytes are cut into chunks makes no difference.
use mathlib.Core.List.{append-nil, append_assoc}
use paper_radar.Prelude.{
  Bool-cases, List, [], ap, arith, false, inl, inr, length, length-append, ltb, refl, subst, sym,
  true, ℕ, ◌++◌, ◌==◌, ◌∙◌, ◌∷◌, ◌≡◌, ◌≤◌,
}
use paper_radar.Llm.Problem.{
  >>=-eq-ok, Rpc, frame_limit, max_frame_bytes, ok, ok_injective, problem, ◌>>=◌,
}
use paper_radar.Llm.Frames.{Bytes, extend, feed, feed_all, feed_pieces, split_lf, strip_cr}

abbrev pub concat : List Bytes → Bytes
concat [] = []
concat (chunk ∷ chunks) = chunk ++ concat chunks

split_lf_lf :
    (bytes : Bytes) (b : ℕ)
    → (b == 10) ≡ true
    → split_lf (b ∷ bytes) ≡ ([], (split_lf bytes).0 ∷ (split_lf bytes).1)
unfolding split_lf
split_lf_lf bytes b h = rw h

split_lf_byte :
    (bytes : Bytes) (b : ℕ)
    → (b == 10) ≡ false
    → split_lf (b ∷ bytes) ≡ (b ∷ (split_lf bytes).0, (split_lf bytes).1)
unfolding split_lf
split_lf_byte bytes b h = rw h

module _ {R : Type 0} (decode : Bytes → Rpc R) where
  abbrev Fed : Type 0
  Fed = Rpc (List R × Bytes)

  -- A second feeding after a first, with all of the records.
  abbrev then_feed : Bytes → List R × Bytes → Fed
  then_feed more first = do rest ← feed decode first.1 more; ok (first.0 ++ rest.0, rest.1)

  abbrev prepend : R → Fed → Fed
  prepend r fed = do rest ← fed; ok (r ∷ rest.0, rest.1)

  abbrev new_record : Bytes → Bytes → Fed
  new_record bytes tail = do r ← decode (strip_cr tail); prepend r (feed decode [] bytes)

  pieces_regroup :
      (p : Bytes) (ps : List Bytes) (r : R) (m : Rpc Bytes)
      → (m >>= λ t. feed_pieces decode t ps >>= λ rest. ok (r ∷ rest.0, rest.1))
        ≡ prepend r (m >>= λ t. feed_pieces decode t ps)
  pieces_regroup p ps r (ok t) = refl
  pieces_regroup p ps r (problem k) = refl

  record_regroup :
      (p : Bytes) (ps : List Bytes) (d : Rpc R)
      → (d >>= λ r.
          extend decode [] p >>= λ t. feed_pieces decode t ps >>= λ rest. ok (r ∷ rest.0, rest.1))
        ≡ (d >>= λ r. prepend r (extend decode [] p >>= λ t. feed_pieces decode t ps))
  record_regroup p ps (ok r) = pieces_regroup p ps r (extend decode [] p)
  record_regroup p ps (problem k) = refl

  tail_regroup :
      (p : Bytes) (ps : List Bytes) (m : Rpc Bytes)
      → (m >>= λ t. feed_pieces decode t (p ∷ ps)) ≡ (
          m >>= λ t. decode (strip_cr t) >>= λ r.
          prepend r (extend decode [] p >>= λ t. feed_pieces decode t ps))
  unfolding feed_pieces
  tail_regroup p ps (ok t) = record_regroup p ps (decode (strip_cr t))
  tail_regroup p ps (problem k) = refl

  feed_lf :
      (tail bytes : Bytes) (b : ℕ)
      → (b == 10) ≡ true
      → feed decode tail (b ∷ bytes) ≡ (extend decode tail [] >>= new_record bytes)
  unfolding feed
  feed_lf tail bytes b h =
      rw (split_lf_lf bytes b h)
        (tail_regroup (split_lf bytes).0 (split_lf bytes).1 (extend decode tail []))

  feed_byte :
      (tail bytes : Bytes) (b : ℕ)
      → (b == 10) ≡ false
      → feed decode tail (b ∷ bytes) ≡ feed decode (tail ++ b ∷ []) bytes
  unfolding feed extend
  feed_byte tail bytes b h = rw (split_lf_byte bytes b h, append_assoc)

  feed-nil : (tail : Bytes) → feed decode tail [] ≡ (extend decode tail [] >>= λ t. ok ([], t))
  unfolding feed split_lf feed_pieces
  feed-nil tail = refl

  -- A tail over the limit is refused by the next chunk, whatever it holds.
  extend_full :
      (tail piece : Bytes)
      → ltb max_frame_bytes (length tail) ≡ true
      → extend decode tail piece ≡ problem frame_limit
  unfolding extend
  extend_full tail piece h = ground (arith, length-append tail piece)

  bind-ok : (m : Fed) → (m >>= λ f. ok (f.0, f.1)) ≡ m
  bind-ok (ok f) = refl
  bind-ok (problem r) = refl

  feed_full :
      (tail chunk : Bytes)
      → ltb max_frame_bytes (length tail) ≡ true
      → feed decode tail chunk ≡ problem frame_limit
  unfolding feed
  feed_full tail chunk h = rw (extend_full tail (split_lf chunk).0 h)

  feed_room :
      (tail : Bytes)
      → ltb max_frame_bytes (length tail) ≡ false
      → feed decode tail [] ≡ ok ([], tail)
  unfolding feed split_lf feed_pieces extend
  feed_room tail h = rw (append-nil, h)

  last_regroup :
      (r : R) (before : List R) (later : Fed)
      → prepend r (later >>= λ rest. ok (before ++ rest.0, rest.1))
        ≡ (later >>= λ rest. ok ((r ∷ before) ++ rest.0, rest.1))
  last_regroup r before (ok rest) = refl
  last_regroup r before (problem k) = refl

  fed_regroup :
      (b : Bytes) (r : R) (fed : Fed)
      → prepend r (fed >>= then_feed b) ≡ (prepend r fed >>= then_feed b)
  fed_regroup b r (ok first) = last_regroup r first.0 (feed decode first.1 b)
  fed_regroup b r (problem k) = refl

  new_regroup :
      (b : Bytes) (fed : Fed) (d : Rpc R)
      → (d >>= λ r. prepend r (fed >>= then_feed b)) ≡ ((d >>= λ r. prepend r fed) >>= then_feed b)
  new_regroup b fed (ok r) = fed_regroup b r fed
  new_regroup b fed (problem k) = refl

  abbrev new_line : Rpc Bytes → Fed → Fed
  new_line m fed = do t ← m; r ← decode (strip_cr t); prepend r fed

  lf_regroup :
      (b : Bytes) (fed : Fed) (m : Rpc Bytes)
      → (m >>= λ t. decode (strip_cr t) >>= λ r. prepend r (fed >>= then_feed b))
        ≡ ((m >>= λ t. decode (strip_cr t) >>= λ r. prepend r fed) >>= then_feed b)
  lf_regroup b fed (ok t) = new_regroup b fed (decode (strip_cr t))
  lf_regroup b fed (problem k) = refl

  -- Feeding two chunks joined is feeding one after the other.
  pub feed-append :
      (a b tail : Bytes) → feed decode tail (a ++ b) ≡ (feed decode tail a >>= then_feed b)
  feed-append [] b tail = elim (Bool-cases (ltb max_frame_bytes (length tail))) [
    | inl full ↦ rw (feed_full tail b full, feed_full tail [] full)
    | inr room ↦ rw (feed_room tail room) (sym (bind-ok (feed decode tail b)))
  ]
  feed-append (x ∷ a) b tail = elim (Bool-cases (x == 10)) [
    | inl lf ↦
        feed_lf tail (a ++ b) x lf
        ∙ ap (new_line (extend decode tail [])) (feed-append a b [])
        ∙ lf_regroup b (feed decode [] a) (extend decode tail [])
        ∙ ap (λ m. m >>= then_feed b) (sym (feed_lf tail a x lf))
    | inr other ↦
        rw (feed_byte tail (a ++ b) x other, feed_byte tail a x other)
          (feed-append a b (tail ++ x ∷ []))
  ]

  extend_bounded :
      (tail piece t : Bytes) → extend decode tail piece ≡ ok t → length t ≤ max_frame_bytes
  unfolding extend
  extend_bounded tail piece t h = ground arith

  feed_pieces_bounded :
      (pieces : List Bytes) (tail : Bytes) (f : List R × Bytes)
      → length tail ≤ max_frame_bytes
      → feed_pieces decode tail pieces ≡ ok f
      → length f.1 ≤ max_frame_bytes
  unfolding feed_pieces
  feed_pieces_bounded [] tail f room h =
      subst (λ g. length g.1 ≤ max_frame_bytes) (ok_injective h) room
  feed_pieces_bounded (piece ∷ pieces) tail f room h =
      let (r, _, h₁) = >>=-eq-ok (decode (strip_cr tail)) _ h in
      let (t, grown, h₂) = >>=-eq-ok (extend decode [] piece) _ h₁ in
      let (rest, fed, last) = >>=-eq-ok (feed_pieces decode t pieces) _ h₂ in
      subst (λ g. length g.1 ≤ max_frame_bytes) (ok_injective last)
        (feed_pieces_bounded pieces t rest (extend_bounded [] piece t grown) fed)

  -- The decoder never keeps more than the limit.
  pub feed_bounded :
      (tail chunk : Bytes) (f : List R × Bytes)
      → feed decode tail chunk ≡ ok f
      → length f.1 ≤ max_frame_bytes
  unfolding feed
  feed_bounded tail chunk f h =
      let (t, grown, rest) = >>=-eq-ok (extend decode tail (split_lf chunk).0) _ h in
      feed_pieces_bounded (split_lf chunk).1 t f (extend_bounded tail (split_lf chunk).0 t grown)
        rest

  abbrev join_with : List Bytes → List R × Bytes → Fed
  join_with chunks first = do rest ← feed_all decode first.1 chunks; ok (first.0 ++ rest.0, rest.1)

  same_after :
      (m : Fed) (chunks : List Bytes)
      → ((first : List R × Bytes)
          → m ≡ ok first
          → feed_all decode first.1 chunks ≡ feed decode first.1 (concat chunks))
      → (m >>= join_with chunks) ≡ (m >>= then_feed (concat chunks))
  same_after (ok first) chunks h = rw (h first refl)
  same_after (problem k) chunks h = refl

  -- However a stream is cut into chunks, it gives the same records and the same rest, or the same
  -- problem, as when it comes whole, if the rest that is kept from before is within the limit.
  pub feed_all-eq :
      (chunks : List Bytes) (tail : Bytes)
      → length tail ≤ max_frame_bytes
      → feed_all decode tail chunks ≡ feed decode tail (concat chunks)
  unfolding feed_all
  feed_all-eq [] tail h = sym (feed_room tail (ground arith))
  feed_all-eq (chunk ∷ chunks) tail h =
      same_after (feed decode tail chunk) chunks
        (λ first e. feed_all-eq chunks first.1 (feed_bounded tail chunk first e))
      ∙ sym (feed-append chunk (concat chunks) tail)

-- ===== src/Llm/Frames.antt =====
-- llm/rpc_frames.py, `FrameDecoder`: bytes that arrive in chunks, cut into records at line feeds.
-- `decode` is a parameter: UTF-8 and JSON decoding are the language's. A problem ends the session, so
-- the decoder's state after it is not kept.
pub mod Chunks
use paper_radar.Prelude.{List, [], if◌then◌else◌, is_nil, length, ltb, not, ℕ, ◌++◌, ◌==◌, ◌∷◌}
use paper_radar.Llm.Problem.{
  Rpc, frame_limit, max_frame_bytes, ok, partial_frame, problem, raise_if, ◌>>=◌, ◌>>◌,
}

abbrev pub Bytes : Type 0
Bytes = List ℕ

-- `chunk.split(b"\n")`: the first piece and the later ones.
unfoldable pub split_lf : Bytes → Bytes × List Bytes
split_lf [] = ([], [])
split_lf (b ∷ bytes) =
    let (piece, pieces) = split_lf bytes in
    if b == 10 then ([], piece ∷ pieces) else (b ∷ piece, pieces)

-- `raw[:-1]` where `raw` ends in a carriage return.
unfoldable pub strip_cr : Bytes → Bytes
strip_cr [] = []
strip_cr (b ∷ []) = if b == 13 then [] else b ∷ []
strip_cr (b ∷ c ∷ bytes) = b ∷ strip_cr (c ∷ bytes)

module _ {R : Type 0} (decode : Bytes → Rpc R) where
  -- `_tail.extend(piece)` with the check that follows it.
  unfoldable pub extend : Bytes → Bytes → Rpc Bytes
  extend tail piece =
      let longer = tail ++ piece in
      if ltb max_frame_bytes (length longer) then problem frame_limit else ok longer

  -- The later pieces of a chunk: each ends the record before it.
  unfoldable pub feed_pieces : Bytes → List Bytes → Rpc (List R × Bytes)
  feed_pieces tail [] = ok ([], tail)
  feed_pieces tail (piece ∷ pieces) = do
    r ← decode (strip_cr tail)
    tail' ← extend [] piece
    rest ← feed_pieces tail' pieces
    ok (r ∷ rest.0, rest.1)

  unfoldable pub feed : Bytes → Bytes → Rpc (List R × Bytes)
  feed tail chunk = do tail' ← extend tail (split_lf chunk).0; feed_pieces tail' (split_lf chunk).1

  unfoldable pub finish : Bytes → Rpc (Unit {0})
  finish tail = raise_if (not (is_nil tail)) partial_frame

  -- The chunks of a stream, one after another.
  unfoldable pub feed_all : Bytes → List Bytes → Rpc (List R × Bytes)
  feed_all tail [] = ok ([], tail)
  feed_all tail (chunk ∷ chunks) = do
    first ← feed tail chunk
    rest ← feed_all first.1 chunks
    ok (first.0 ++ rest.0, rest.1)

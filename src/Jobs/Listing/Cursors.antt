-- ===== src/Jobs/Listing/Cursors.antt =====
-- That a cursor is read back as it was written.
use sumweave.Base.{◌≡◌, refl, some, [], ◌∷◌, ◌++◌, false, ◌==◌, All}
use sumweave.Base.Text.{Str, is_empty, trim_space}
use sumweave.Jobs.Types.{Time}
use sumweave.Jobs.Listing.{CursorLibraries, decoded, encode_cursor, decode_cursor, split_bar}

-- What the libraries promise of a text and of a time: base64 is decoded as it was encoded and has no spaces
-- around it, and a time is parsed as it was printed, without a bar.
pub record ReadsBack (libs : CursorLibraries) (at : Time) (id : Str) : Type 0 where
  pub decodes :
      libs.decode_string (trim_space (libs.encode_to_string (libs.format at ++ b'|' ∷ id)))
      ≡ some (libs.format at ++ b'|' ∷ id)
  pub not_empty : is_empty (libs.encode_to_string (libs.format at ++ b'|' ∷ id)) ≡ false
  pub parses : libs.parse (libs.format at) ≡ some at
  pub no_bar : All (λ c. (c == b'|') ≡ false) (libs.format at)

split_bar_lem :
    (s t : Str) → All (λ c. (c == b'|') ≡ false) s → split_bar (s ++ b'|' ∷ t) ≡ some (s, t)
unfolding split_bar
split_bar_lem [] t h = refl
split_bar_lem (c ∷ s) t h = rw h.0 (rw (split_bar_lem s t h.1) refl)

pub decode_cursor-encode_cursor :
    (libs : CursorLibraries) (at : Time) (id : Str)
    → ReadsBack libs at id
    → is_empty (trim_space id) ≡ false
    → decode_cursor libs (encode_cursor libs at id) ≡ decoded at id
unfolding decode_cursor encode_cursor
decode_cursor-encode_cursor libs at id reads named =
    rw (reads.decodes, split_bar_lem (libs.format at) id reads.no_bar, named, reads.parses) refl

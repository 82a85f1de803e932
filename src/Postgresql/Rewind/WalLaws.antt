-- ===== src/Postgresql/Rewind/WalLaws.antt =====
-- The command that fetches a segment, and the end of the loop around pg_rewind
-- (patroni/postgresql/rewind.py: `_fetch_missing_wal`, `pg_rewind`).
use Prim.Native.Char.{Char}
use Prim.Native.String.append
use pennsignals_postgres.Base.{
  ◌<>◌, List, [], ◌∷◌, not, ℕ, zero, suc, String, Bool, true, false, Option, none, some,
}
use pennsignals_postgres.Base.Text.{every}
use pennsignals_postgres.Postgresql.Rewind.Wal.{is_percent}

abbrev plain : Char → Bool
plain c = not (is_percent c)

-- A restore command as its writer means it.
pub data Piece : Type 0 where
  -- A text without a percent sign.
  text : String → Piece
  path : Piece
  file : Piece
  first_segment : Piece
  percent : Piece

abbrev pub written : List Piece → String
written [] = ""
written (text s ∷ ps) = s <> written ps
written (path ∷ ps) = "%p" <> written ps
written (file ∷ ps) = "%f" <> written ps
written (first_segment ∷ ps) = "%r" <> written ps
written (percent ∷ ps) = "%%" <> written ps

abbrev pub meant : String → String → List Piece → String
meant p f [] = ""
meant p f (text s ∷ ps) = s <> meant p f ps
meant p f (path ∷ ps) = p <> meant p f ps
meant p f (file ∷ ps) = f <> meant p f ps
meant p f (first_segment ∷ ps) = "000000010000000000000001" <> meant p f ps
meant p f (percent ∷ ps) = "%" <> meant p f ps

abbrev pub is_sound : Piece → Bool
is_sound (text s) = every plain s
is_sound _ = true

-- An exit code of 0; a run that was cancelled has none.
abbrev pub succeeded : Option ℕ → Bool
succeeded none = false
succeeded (some zero) = true
succeeded (some (suc n)) = false

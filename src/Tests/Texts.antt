-- ===== src/Tests/Texts.antt =====
-- Searches in texts.
use cake.Text.Tokens.{IsWord}
use cake.ArgList.{blanks, insert_spacedelim}
use cake.ArgList.Laws.{insert_spacedelim-IsWord}
use cake.Prelude.{All, [], ◌∷◌, ◌≡◌, refl, some, arith}
use cake.Text.{Text, codes, is_prefix, find, has_byte}
use cake.Build.Processors.{count, count_from}
use cake.Build.Processors.Count.{Splits, count-Splits}
use cake.File.Trim.{trim, trim_from, Trimmed, trim-Trimmed}

abbrev two_cores : Text
two_cores = codes "processor: 0; processor: 1"

counted_two : count two_cores (codes "processor") ≡ 2
unfolding count count_from find is_prefix
counted_two = refl

count-Splits_example : Splits (codes "processor") two_cores (count two_cores (codes "processor"))
count-Splits_example = count-Splits two_cores (codes "processor") (omega arith)

trimmed_two : trim (some (codes "lib//")) (codes "/") ≡ some (codes "lib")
unfolding trim trim_from has_byte
trimmed_two = refl

trim-Trimmed_example :
    (kept : Text) × (trim (some (codes "lib//")) (codes "/") ≡ some kept)
    × Trimmed (codes "lib//") (codes "/") kept
trim-Trimmed_example = trim-Trimmed (codes "lib//") (codes "/")

gcc-IsWord : All (IsWord blanks) (codes "gcc" ∷ [])
unfolding has_byte
gcc-IsWord = (((λ e. cc), (refl, (refl, (refl, tt)))), tt)

insert_spacedelim-IsWord_example :
    All (IsWord blanks) (insert_spacedelim [] (codes "gcc" ∷ []) (codes "-g  -O2"))
insert_spacedelim-IsWord_example =
    insert_spacedelim-IsWord [] (codes "gcc" ∷ []) (codes "-g  -O2") gcc-IsWord

-- ===== src/Session/Logger/Format.antt =====
-- The texts of ofe_session1_code/ofe/include/util/logger.h and src/util/logger.cpp: the placeholders
-- of a message and the line of a record.
pub mod Template
use rudra_org.Common.{
  ℕ, zero, suc, ◌+◌, ◌*◌, ◌/◌, ◌%◌, ◌^◌, Bool, true, false, ◌&&◌, ◌||◌, Option, none, some, List,
  [], ◌∷◌, ◌++◌, leb, ◌==◌, if◌then◌else◌,
}
use rudra_org.Common.Int.{ℤ, pos, negsuc}
use rudra_org.Common.Text.{Text, codes, numeral, pad_left, pad_right}
use rudra_org.Session.Logger.{LogRecord, level_number, log_level_str}

abbrev pub with_first : ℕ → Option (Text × Text) → Option (Text × Text)
with_first c none = none
with_first c (some (before, behind)) = some (c ∷ before, behind)

-- `fmt.find("{}")`, as the text before the first placeholder and the text behind it.
unfoldable pub find_placeholder : Text → Option (Text × Text)
find_placeholder [] = none
find_placeholder (c ∷ []) = none
find_placeholder (c ∷ c' ∷ cs) =
    let further = with_first c (find_placeholder (c' ∷ cs)) in
    if (c == b'{') && (c' == b'}') then some ([], cs) else further

-- The arguments are what a stream writes for them.
unfoldable pub format : Text → List Text → Text
format fmt [] = fmt
format fmt (val ∷ rest) = elim (find_placeholder fmt) [
  | none ↦ fmt
  | some (before, behind) ↦ before ++ (val ++ format behind rest)
]

-- Quotient and remainder towards 0, as the text of the fraction and the seconds.
abbrev pub seconds : ℤ → ℤ
seconds (pos n) = pos (n / 10 ^ 9)
seconds (negsuc n) = elim ((n + 1) / 10 ^ 9) [ zero ↦ pos 0 | suc k ↦ negsuc k ]

abbrev pub fraction : ℤ → Text
fraction (pos n) = numeral 10 9 (n % 10 ^ 9)
fraction (negsuc n) =
    let rem : ℕ = (n + 1) % 10 ^ 9 in if rem == 0 then codes "0" else b'-' ∷ numeral 10 9 rem

-- The part of a path behind its last separator.
abbrev pub base_name : Text → Text → Text
base_name last [] = last
base_name last (c ∷ cs) = base_name (if (c == b'/') || (c == 92) then cs else last) cs

abbrev pub location : LogRecord → Option Text → Text
location rec none = []
location rec (some path) =
    if leb (level_number rec.level) 1
    then codes "  [" ++ (base_name path path ++ (b':' ∷ (numeral 10 10 rec.line ++ codes "]")))
    else []

-- What `std::strftime` makes of a second, in the local time zone.
module _ (local_time : ℤ → Text) where
  unfoldable pub format_timestamp : ℤ → Text
  format_timestamp ts_ns = local_time (seconds ts_ns) ++ (b'.' ∷ pad_left 9 b'0' (fraction ts_ns))

  unfoldable pub format_record : LogRecord → Text
  format_record rec =
      format_timestamp rec.timestamp_ns
      ++ (codes " | "
          ++ (log_level_str rec.level
              ++ (codes " | T:"
                  ++ (pad_left 8 b'0' (numeral 16 8 (rec.thread_id % 2 ^ 32))
                      ++ (codes " | "
                          ++ (pad_right 20 b' ' rec.module_name
                              ++ (codes " | "
                                  ++ (rec.message ++ (location rec rec.file ++ 10 ∷ [])))))))))

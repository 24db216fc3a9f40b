-- ===== src/Store/Text.antt =====
-- Messages: a template literal is the list of its pieces, with each number kept as a number, and a
-- thrown exception is its class with its message.
use trading_backend.Base.{ℕ, String, Bool, false, is_some, ◌||◌, List, [], ◌∷◌, ◌++◌, find_text}

pub data Fragment (W : Type 0) : Type 0 where
  text : String → Fragment W
  count : ℕ → Fragment W
  amount : W → Fragment W
  -- `x.toFixed(n)`
  fixed : ℕ → W → Fragment W

abbrev pub Text : Type 0 → Type 0
Text W = List (Fragment W)

abbrev pub say : {W : Type 0} → String → Text W
say s = text s ∷ []

-- `texts.join(separator)`
abbrev pub join : {W : Type 0} → String → List (Text W) → Text W
join sep [] = []
join sep (t ∷ []) = t
join sep (t ∷ u ∷ ts) = t ++ (text sep ∷ join sep (u ∷ ts))

-- The NestJS exceptions by class, then those of Prisma by code: P2025, P2003, P2002 and P2034,
-- and P2020, by which a value is refused that its column cannot hold.
pub data Exception (W : Type 0) : Type 0 where
  bad_request forbidden not_found conflict unauthorized : Text W → Exception W
  bad_gateway request_timeout : Text W → Exception W
  record_not_found foreign_key unique_violation write_conflict value_out_of_range : Exception W

-- `error.message`
abbrev pub message : {W : Type 0} → Exception W → Text W
message (bad_request t) = t
message (forbidden t) = t
message (not_found t) = t
message (conflict t) = t
message (unauthorized t) = t
message (bad_gateway t) = t
message (request_timeout t) = t
message record_not_found = say "P2025"
message foreign_key = say "P2003"
message unique_violation = say "P2002"
message write_conflict = say "P2034"
message value_out_of_range = say "P2020"

-- `message.includes(word)`, of a message's pieces of text
abbrev pub includes_word : {W : Type 0} → String → Text W → Bool
includes_word word [] = false
includes_word word (text s ∷ t) = is_some (find_text s word) || includes_word word t
includes_word word (_ ∷ t) = includes_word word t

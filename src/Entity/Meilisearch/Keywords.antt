-- ===== src/Entity/Meilisearch/Keywords.antt =====
-- The words of a filter expression (wakuwaku-entity/src/meilisearch/filter.rs), as lists of characters' codes.
use wakuwaku.Base.{ℕ, List, [], ◌∷◌}

-- ` TO `
abbrev pub to_word : List ℕ
to_word = 32 ∷ 84 ∷ 79 ∷ 32 ∷ []

-- ` IN [`
abbrev pub in_word : List ℕ
in_word = 32 ∷ 73 ∷ 78 ∷ 32 ∷ 91 ∷ []

-- ` EXISTS`
abbrev pub exists_word : List ℕ
exists_word = 32 ∷ 69 ∷ 88 ∷ 73 ∷ 83 ∷ 84 ∷ 83 ∷ []

-- ` IS NULL`
abbrev pub null_word : List ℕ
null_word = 32 ∷ 73 ∷ 83 ∷ 32 ∷ 78 ∷ 85 ∷ 76 ∷ 76 ∷ []

-- ` IS EMPTY`
abbrev pub empty_word : List ℕ
empty_word = 32 ∷ 73 ∷ 83 ∷ 32 ∷ 69 ∷ 77 ∷ 80 ∷ 84 ∷ 89 ∷ []

-- `NOT `
abbrev pub not_word : List ℕ
not_word = 78 ∷ 79 ∷ 84 ∷ 32 ∷ []

-- ` AND `
abbrev pub and_word : List ℕ
and_word = 32 ∷ 65 ∷ 78 ∷ 68 ∷ 32 ∷ []

-- ` OR `
abbrev pub or_word : List ℕ
or_word = 32 ∷ 79 ∷ 82 ∷ 32 ∷ []

-- `, `
abbrev pub comma_word : List ℕ
comma_word = 44 ∷ 32 ∷ []

-- ===== src/Core/UrlHistory.antt =====
-- The URL history of core/mementoManager.ts. A JavaScript `Set` of URLs is its list of members in
-- order of insertion.
pub mod Bounded
mod Tests
use text.Mathlib.Text.{◌==◌ as str_eq}
use vscode_coder.Base.{
  ℕ, ◌-◌, Bool, true, false, ◌||◌, List, [], ◌∷◌, ◌++◌, String, length, drop, ltb, if◌then◌else◌,
}

-- `MAX_URLS`
abbrev pub max_urls : ℕ
max_urls = 10

pub contains : String → List String → Bool
contains url [] = false
contains url (u ∷ urls) = str_eq u url || contains url urls

-- `Set.add`
pub add : String → List String → List String
unfolding contains
add url urls = if contains url urls then urls else urls ++ url ∷ []

-- `Set.delete`
pub delete : String → List String → List String
delete url [] = []
delete url (u ∷ urls) = let rest = delete url urls in if str_eq u url then rest else u ∷ rest

-- `new Set(val)`, from the members added so far
pub add_all : List String → List String → List String
unfolding add
add_all urls [] = urls
add_all urls (u ∷ val) = add_all (add u urls) val

-- the loop over `append`; an empty or missing URL is skipped
pub append_all : List String → List String → List String
unfolding add delete
append_all urls [] = urls
append_all urls (url ∷ append) =
    append_all (if str_eq url "" then urls else add url (delete url urls)) append

-- the head is sliced off if the list is too large
pub slice_recent : List String → List String
slice_recent urls = if ltb max_urls (length urls) then drop (length urls - max_urls) urls else urls

-- `withUrlHistory`, from the stored list
unfoldable pub with_url_history : List String → List String → List String
unfolding add_all append_all slice_recent
with_url_history val append = slice_recent (append_all (add_all [] val) append)

-- `addToUrlHistory`: what is stored after it
unfoldable pub add_to_url_history : String → List String → List String
unfolding with_url_history
add_to_url_history url stored = if str_eq url "" then stored else with_url_history stored (url ∷ [])

-- ===== src/Core/UrlHistory/Bounded.antt =====
-- The URL history stays short, holds no URL twice, and ends in the URL added last.
use text.Mathlib.Text.{◌==◌ as str_eq}
use text.Mathlib.TextEquality.{eq_iff}
use vscode_coder.Base.{
  ℕ, zero, suc, ◌-◌, ◌≤◌, ◌≡◌, ◌≢◌, refl, false, ◌||◌, List, [], ◌∷◌, ◌++◌, String, length,
  length-append, drop, ltb, Bool-cases, inl, inr, arith,
}
use vscode_coder.Core.UrlHistory.{
  max_urls, contains, add, delete, add_all, append_all, slice_recent, with_url_history,
  add_to_url_history,
}

-- No URL stands twice.
abbrev pub NoRepeat : List String → Type 0
NoRepeat [] = Unit
NoRepeat (u ∷ urls) = (contains u urls ≡ false) × NoRepeat urls

contains-append :
    (url u : String) (urls : List String)
    → contains url (urls ++ u ∷ []) ≡ (contains url urls || str_eq u url)
unfolding contains
contains-append url u [] = ground arith
contains-append url u (v ∷ urls) = ground (arith, contains-append url u urls)

contains-delete :
    (url u : String) (urls : List String)
    → contains url urls ≡ false
    → contains url (delete u urls) ≡ false
unfolding contains delete
contains-delete url u [] h = refl
contains-delete url u (v ∷ urls) h = ground (arith, contains-delete url u urls)

contains-delete_self : (url : String) (urls : List String) → contains url (delete url urls) ≡ false
unfolding contains delete
contains-delete_self url [] = refl
contains-delete_self url (v ∷ urls) = ground (arith, contains-delete_self url urls)

NoRepeat-append :
    (urls : List String) (u : String)
    → NoRepeat urls
    → contains u urls ≡ false
    → NoRepeat (urls ++ u ∷ [])
unfolding contains
NoRepeat-append [] u h c = (refl, tt)
NoRepeat-append (v ∷ urls) u (h, hs) c = (
  rw (contains-append v u urls) (ground (arith, eq_iff v u, eq_iff u v)),
  NoRepeat-append urls u hs (ground arith),
)

NoRepeat-delete : (u : String) (urls : List String) → NoRepeat urls → NoRepeat (delete u urls)
unfolding delete
NoRepeat-delete u [] h = tt
NoRepeat-delete u (v ∷ urls) (h, hs) =
    ground (arith, contains-delete v u urls h, NoRepeat-delete u urls hs)

NoRepeat-add : (u : String) (urls : List String) → NoRepeat urls → NoRepeat (add u urls)
unfolding add
NoRepeat-add u urls h = elim (Bool-cases (contains u urls)) [
  | inl old ↦ rw old h
  | inr new ↦ rw new (NoRepeat-append urls u h new)
]

NoRepeat-add_all : (urls val : List String) → NoRepeat urls → NoRepeat (add_all urls val)
unfolding add_all
NoRepeat-add_all urls [] h = h
NoRepeat-add_all urls (u ∷ val) h = NoRepeat-add_all (add u urls) val (NoRepeat-add u urls h)

NoRepeat-drop : (n : ℕ) (urls : List String) → NoRepeat urls → NoRepeat (drop n urls)
NoRepeat-drop zero urls h = h
NoRepeat-drop (suc n) [] h = tt
NoRepeat-drop (suc n) (u ∷ urls) (h, hs) = NoRepeat-drop n urls hs

length-drop : (n : ℕ) (urls : List String) → length (drop n urls) ≡ length urls - n
length-drop zero urls = omega arith
length-drop (suc n) [] = omega arith
length-drop (suc n) (u ∷ urls) = omega (arith, length-drop n urls)

drop-append :
    (n : ℕ) (urls : List String) (u : String)
    → n ≤ length urls
    → drop n (urls ++ u ∷ []) ≡ drop n urls ++ u ∷ []
drop-append zero urls u h = refl
drop-append (suc n) [] u h = absurd (omega arith)
drop-append (suc n) (v ∷ urls) u h = drop-append n urls u (omega arith)

slice_recent-length : (urls : List String) → length (slice_recent urls) ≤ max_urls
unfolding slice_recent
slice_recent-length urls = ground (arith, length-drop (length urls - max_urls) urls)

slice_recent-NoRepeat : (urls : List String) → NoRepeat urls → NoRepeat (slice_recent urls)
unfolding slice_recent
slice_recent-NoRepeat urls h = elim (Bool-cases (ltb max_urls (length urls))) [
  | inl long ↦ rw long (NoRepeat-drop (length urls - max_urls) urls h)
  | inr short ↦ rw short h
]

-- The list is its last element behind an earlier list.
abbrev pub EndsIn : String → List String → Type 0
EndsIn url urls = (before : List String) × (urls ≡ before ++ url ∷ [])

slice_recent-EndsIn :
    (url : String) (urls : List String) → EndsIn url (slice_recent (urls ++ url ∷ []))
unfolding slice_recent
slice_recent-EndsIn url urls = elim (Bool-cases (ltb max_urls (length (urls ++ url ∷ [])))) [
  | inl long ↦
      let n = length (urls ++ url ∷ []) - max_urls in
      (drop n urls, rw long (drop-append n urls url (omega (arith, length-append urls (url ∷ [])))))
  | inr short ↦ (urls, rw short refl)
]

-- After a URL is added the history has at most ten URLs, holds none twice, and ends in the URL just
-- added, whatever list was stored before.
pub add_to_url_history_lem :
    (url : String) (stored : List String)
    → url ≢ ""
    → let history = add_to_url_history url stored in
      (length history ≤ max_urls) × NoRepeat history × EndsIn url history
unfolding add_to_url_history with_url_history append_all add
add_to_url_history_lem url stored n =
    let urls = add_all [] stored in
    let rest = delete url urls in
    let given : str_eq url "" ≡ false = ground (arith, eq_iff url "") in
    let new : contains url rest ≡ false = contains-delete_self url urls in
    let kept : NoRepeat (rest ++ url ∷ []) =
      NoRepeat-append rest url (NoRepeat-delete url urls (NoRepeat-add_all [] stored tt)) new in
    rw (given, new)
      (
        slice_recent-length (rest ++ url ∷ []),
        slice_recent-NoRepeat (rest ++ url ∷ []) kept,
        slice_recent-EndsIn url rest,
      )

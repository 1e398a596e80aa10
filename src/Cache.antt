-- ===== src/Cache.antt =====
-- The cache of handles in src/lib/mfmanager.cpp: `searchFromCache`, `addToCache`,
-- `removeFromCache`, `deleteCache` and `unloadHandlesForABackend`, over `feedbackHandleHash`.
pub mod Invariant
pub mod Unloading
pub mod Keys
pub mod Printing
use touch_feedback.Base.{
  ℕ, ◌++◌, Bool, true, false, Option, none, some, List, [], ◌∷◌, ◌==◌, if◌then◌else◌, index_of,
}
use touch_feedback.Base.Int.{ℤ, pos, negsuc}
use touch_feedback.Base.Text.{Text, remove}
use touch_feedback.Base.Dict.{Dict, lookup, insert, erase, is_some}
use touch_feedback.World.{Platform, Handle, World, deref, update}
use touch_feedback.Handle.{unload, delete}

-- `backendList.indexOf(backend)`, -1 for a backend that is not in the list and for NULL.
unfoldable pub backend_index : List ℕ → Option ℕ → ℤ
backend_index bs none = negsuc 0
backend_index bs (some b) = elim (index_of b bs) [ none ↦ negsuc 0 | some i ↦ pos i ]

module _ (p : Platform) where
  -- The key of a directory and a backend: "<directory without the prefix>#<index in hex>".
  unfoldable pub key_value : Text → ℤ → Text
  key_value dir index = remove dir p.theme_dir_prefix ++ b'#' ∷ p.number_hex index

  unfoldable pub handle_key : List ℕ → Handle → Text
  unfolding backend_index
  handle_key bs h = key_value h.feedback_dir_path (backend_index bs h.backend_if)

  -- The pointer that the hash holds, null if its object is gone.
  unfoldable pub search_from_cache : Text → ℕ → World → Option ℕ
  search_from_cache dir index w = elim (lookup (key_value dir (pos index)) w.feedback_handle_hash) [
    | none ↦ none
    | some o ↦ elim (w.object o) [ none ↦ none | some h ↦ some o ]
  ]

  unfoldable pub add_to_cache : ℕ → World → World
  unfolding handle_key
  add_to_cache o w = elim (w.object o) [
    | none ↦ w
    | some h ↦
        let k = handle_key w.backend_list h in
        if is_some (lookup k w.feedback_handle_hash)
        then w
        else record w { feedback_handle_hash = insert k o w.feedback_handle_hash }
  ]

  unfoldable pub remove_from_cache : ℕ → World → World
  unfolding handle_key
  remove_from_cache o w = elim (w.object o) [
    | none ↦ w
    | some h ↦ record w {
      feedback_handle_hash = erase (handle_key w.backend_list h) w.feedback_handle_hash;
    }
  ]

-- The loop of `deleteCache` over the entries; the hash is empty after it.
unfoldable pub delete_entries : Dict ℕ → World → World
unfolding delete
delete_entries [] w = w
delete_entries ((k, o) ∷ es) w = delete_entries es (delete o w)

unfoldable pub delete_cache : World → World
unfolding delete_entries
delete_cache w = record (delete_entries w.feedback_handle_hash w) { feedback_handle_hash = [] }

-- `backend() == backend`
abbrev pub is_backend : ℕ → Option ℕ → Bool
is_backend b none = false
is_backend b (some c) = c == b

-- `(*cacheIter)->unload(); delete (*cacheIter);` The unloaded object is empty, so that its
-- destructor does not unload it once more.
unfoldable pub unload_and_delete : ℕ → World → World
unfolding unload delete
unload_and_delete o w = elim (w.object o) [
  | none ↦ w
  | some h ↦
      let (h', calls') = unload h w.calls in
      delete o (record w { object = update w.object o (some h'); calls = calls' })
]

-- A live handle of the backend?
unfoldable pub belongs : ℕ → ℕ → World → Bool
belongs b o w = elim (w.object o) [ none ↦ false | some h ↦ is_backend b h.backend_if ]

-- The loop over the hash: the entries that stay, and the state.
unfoldable pub unload_entries : ℕ → Dict ℕ → World → Dict ℕ × World
unfolding unload_and_delete belongs
unload_entries b [] w = ([], w)
unload_entries b ((k, o) ∷ es) w =
    let hit = belongs b o w in
    let (rest, w') = unload_entries b es (if hit then unload_and_delete o w else w) in
    (if hit then rest else (k, o) ∷ rest, w')

unfoldable pub unload_handles_for_a_backend : ℕ → World → World
unfolding unload_entries
unload_handles_for_a_backend b w =
    let (rest, w') = unload_entries b w.feedback_handle_hash w in
    record w' { feedback_handle_hash = rest }

-- ===== src/Lock/Tests.antt =====
-- A lock in memory: acquired, refused, taken over, released.
use mongokit.Prelude.{
  String, ◌≡◌, ◌≢◌, refl, ap, true, false, Option, none, some, [], ◌∷◌, str_eq, arith,
  if◌then◌else◌, returns,
}
use mongokit.Js.Object.{get}
use mongokit.Js.Value.{undefined, str, date, object, objects, fields, int_lt}
use mongokit.Mongo.Memory.{holds, clause, same, satisfies, satisfies_all}
use mongokit.Mongo.Memory.Order.{below, text_lt}
use mongokit.Pagination.Cursor.{is_str}
use mongokit.Mongo.Memory.Store.{Document, Collection, at}
use mongokit.Mongo.Memory.Instance.{collection, documents-IsStandard}
use mongokit.Lock.{
  lease_of, try_acquire, release, inspect, acquired, acquire_filter, acquire_update, state_of,
  is_over,
}
use mongokit.Lock.Laws.{Held, take, give_back, Represents, try_acquire-refines, release-refines}
use mongokit.Lock.Exclusion.{acquires, releases, granted, run, exclusion}

-- The lock "jobs" is held by "a" until 100.
abbrev held_doc : Document
held_doc f =
    if str_eq f "holder" then str "a" else if str_eq f "expiresAt" then date 100 else undefined

abbrev locks : Collection
locks name = if str_eq name "jobs" then some held_doc else none

abbrev held : Option Held
held = some (record { holder = "a"; until = 100 })

locks-held : Represents (collection "_id") documents-IsStandard locks "jobs" held
unfolding at
locks-held = (refl, refl)

locks-free : Represents (collection "_id") documents-IsStandard locks "mail" none
unfolding at
locks-free = tt

-- Another holder after the lease is over.
try_acquire-refines_example :
    let r = try_acquire (collection "_id") 30 "jobs" "b" 0 101 locks in
    let t = take held "b" 101 131 in
    (r.0 ≡ returns t.0)
    × Represents (collection "_id") documents-IsStandard r.1 "jobs" t.1
    × ((other : String)
        → "jobs" ≢ other
        → (collection "_id").at other r.1 ≡ (collection "_id").at other locks)
unfolding lease_of
try_acquire-refines_example =
    try_acquire-refines (collection "_id") documents-IsStandard 30 "jobs" "b" 0 101 locks held
      locks-held

release-refines_example :
    let r = release (collection "_id") "jobs" "a" locks in
    (r.0 ≡ (give_back held "a").0)
    × Represents (collection "_id") documents-IsStandard r.1 "jobs" (give_back held "a").1
    × ((other : String)
        → "jobs" ≢ other
        → (collection "_id").at other r.1 ≡ (collection "_id").at other locks)
release-refines_example =
    release-refines (collection "_id") documents-IsStandard 30 "jobs" "a" locks held locks-held

-- After "a" got the free lock "mail" at 0 for 50, "b" asks twice and then releases.
exclusion_example :
    let after = (try_acquire (collection "_id") 30 "mail" "a" 50 0 locks).1 in
    let r =
      run
        (collection "_id")
        30
        "mail"
        (acquires "mail" "b" 10 20 ∷ releases "mail" "b" ∷ acquires "mail" "b" 10 50 ∷ [])
        after in
    (r.0 ≡ false) × ((release (collection "_id") "mail" "a" r.1).0 ≡ true)
unfolding lease_of
exclusion_example =
    exclusion (collection "_id") documents-IsStandard 30 "mail" "a" 50 0
      (acquires "mail" "b" 10 20 ∷ releases "mail" "b" ∷ acquires "mail" "b" 10 50 ∷ []) locks none
      locks-free
      (ap granted
        (try_acquire-refines (collection "_id") documents-IsStandard 30 "mail" "a" 50 0 locks none
          locks-free).0)
      ((refl, omega arith), (refl, ((refl, omega arith), tt)))

-- The commands run: "b" is refused before 100, and "a" extends its lease.
refused : (try_acquire (collection "_id") 30 "jobs" "b" 10 100 locks).0 ≡ returns false
unfolding try_acquire acquired acquire_filter acquire_update lease_of at clause holds satisfies_all
    satisfies same below text_lt object objects fields get is_str int_lt
refused = refl

extended :
    inspect (collection "_id") "jobs" 0 (try_acquire (collection "_id") 30 "jobs" "a" 10 95 locks).1
    ≡ some
        (record { name = "jobs"; holder = str "a"; expires_at = date 105; acquired_at = undefined })
unfolding try_acquire acquired acquire_filter acquire_update lease_of at clause holds satisfies_all
    satisfies same below text_lt object objects fields get is_str int_lt inspect state_of is_over
extended = refl

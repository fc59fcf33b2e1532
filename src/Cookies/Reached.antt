-- ===== src/Cookies/Reached.antt =====
-- A jar is a `dict` with distinct keys.
use eazy_sdk.Prelude.{Bool, Option, none, some, List, [], ◌∷◌, All}
use eazy_sdk.Dict.Distinct.{Distinct}
use eazy_sdk.Cookies.Chars.{Text}
use eazy_sdk.Cookies.Jar.{Jar, empty, key_eq, store, load, select, snapshot}
use eazy_sdk.Cookies.{Platform, DateTime, StoredCookie, Key, Target}
use eazy_sdk.Cookies.Holds.{Holds, touch_all-Holds, drop_expired-Holds, evict-Holds, merge-Holds}
use eazy_sdk.Cookies.Origin.{store_lines-Holds}

-- The jars that the methods lead to from an empty one.
pub data Reached (p : Platform) : Jar → Type 0 where
  made : Reached p empty
  stored :
      {jar : Jar} (public_suffixes : Option (Text → Bool)) (t : Option Target) (now : DateTime)
      (lines : List Text)
      → Reached p jar
      → Reached p (store p public_suffixes t now lines jar).0
  selected :
      {jar : Jar} (t : Option Target) (now : DateTime)
      → Reached p jar
      → Reached p (select p t now jar).1
  loaded :
      {jar : Jar} (now : DateTime) (state : List StoredCookie)
      → Reached p jar
      → Reached p (load now state jar)
  saved : {jar : Jar} (now : DateTime) → Reached p jar → Reached p (snapshot now jar).1

abbrev Any : StoredCookie → Type 0
Any c = Unit

All-Any_entries : (d : List (Key × StoredCookie)) → All (λ kv. Any kv.1) d
All-Any_entries [] = tt
All-Any_entries (x ∷ d) = (tt, All-Any_entries d)

All-Any_list : (cs : List StoredCookie) → All Any cs
All-Any_list [] = tt
All-Any_list (c ∷ cs) = (tt, All-Any_list cs)

store-Holds :
    (p : Platform) (public_suffixes : Option (Text → Bool)) (t : Option Target) (now : DateTime)
    (lines : List Text) (jar : Jar)
    → Holds Any jar
    → Holds Any (store p public_suffixes t now lines jar).0
unfolding store
store-Holds p public_suffixes none now lines jar h = h
store-Holds p public_suffixes (some t) now lines jar h =
    store_lines-Holds p public_suffixes t now Any (λ c o. tt) lines jar h

select-Holds :
    (p : Platform) (t : Option Target) (now : DateTime) (jar : Jar)
    → Holds Any jar
    → Holds Any (select p t now jar).1
unfolding select
select-Holds p none now jar h = h
select-Holds p (some t) now jar h = touch_all-Holds Any _ _ (drop_expired-Holds Any now jar h)

Reached-Holds : (p : Platform) {jar : Jar} → Reached p jar → Holds Any jar
unfolding empty load snapshot
Reached-Holds p made = record { distinct = tt; every = tt }
Reached-Holds p (stored public_suffixes t now lines r) =
    store-Holds p public_suffixes t now lines _ (Reached-Holds p r)
Reached-Holds p (selected t now r) = select-Holds p t now _ (Reached-Holds p r)
Reached-Holds p (loaded now state r) =
    evict-Holds Any now _ (merge-Holds Any now state _ (All-Any_list state) (Reached-Holds p r))
Reached-Holds p (saved now r) = drop_expired-Holds Any now _ (Reached-Holds p r)

-- The keys of a jar that the methods lead to are distinct.
pub Reached-Distinct : (p : Platform) {jar : Jar} → Reached p jar → Distinct key_eq jar.cookies
Reached-Distinct p r = (Reached-Holds p r).distinct

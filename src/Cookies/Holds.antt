-- ===== src/Cookies/Holds.antt =====
-- What holds of every cookie of a jar, and the methods that keep it.
use eazy_sdk.Prelude.{ℕ, ◌-◌, List, [], ◌∷◌, arith, inl, inr, Bool-cases, length, All}
use eazy_sdk.Dict.{put}
use eazy_sdk.Dict.Distinct.{Distinct, put-Distinct, remove_all-Distinct}
use eazy_sdk.Cookies.Chars.{Text}
use eazy_sdk.Cookies.Jar.{
  Jar, key_eq, touch, touch_all, drop, drop_expired, expired_keys, drop_least_used, trim_groups,
  trim_all, evict, keep, merge, max_cookies_per_domain,
}
use eazy_sdk.Cookies.{DateTime, StoredCookie, Key, key, is_expired}
use eazy_sdk.Dict.Every.{put-All, remove_all-All}

-- The keys are distinct, and every cookie has the property.
pub record Holds (P : StoredCookie → Type 0) (jar : Jar) : Type 0 where
  pub distinct : Distinct key_eq jar.cookies
  pub every : All (λ kv. P kv.1) jar.cookies

module _ (P : StoredCookie → Type 0) where
  pub drop-Holds : (ks : List Key) (jar : Jar) → Holds P jar → Holds P (drop ks jar)
  unfolding drop
  drop-Holds ks jar h = record {
    distinct = remove_all-Distinct key_eq ks jar.cookies h.distinct;
    every = remove_all-All key_eq P ks jar.cookies h.every;
  }

  pub touch-Holds : (jar : Jar) (k : Key) → Holds P jar → Holds P (touch jar k)
  unfolding touch
  touch-Holds jar k h = record { distinct = h.distinct; every = h.every }

  pub touch_all-Holds : (jar : Jar) (ks : List Key) → Holds P jar → Holds P (touch_all jar ks)
  unfolding touch_all
  touch_all-Holds jar [] h = h
  touch_all-Holds jar (k ∷ ks) h = touch_all-Holds (touch jar k) ks (touch-Holds jar k h)

  pub keep-Holds : (jar : Jar) (c : StoredCookie) → P c → Holds P jar → Holds P (keep jar c)
  unfolding keep
  keep-Holds jar c pc h =
      touch-Holds (record jar { cookies = put key_eq (key c) c jar.cookies }) (key c)
        (record {
          distinct = put-Distinct key_eq (key c) c jar.cookies h.distinct;
          every = put-All key_eq P (key c) c jar.cookies pc h.every;
        })

  pub drop_expired-Holds :
      (now : DateTime) (jar : Jar) → Holds P jar → Holds P (drop_expired now jar)
  unfolding drop_expired
  drop_expired-Holds now jar h = drop-Holds (expired_keys now jar.cookies) jar h

  pub drop_least_used-Holds :
      (ks : List Key) (excess : ℕ) (jar : Jar)
      → Holds P jar
      → Holds P (drop_least_used ks excess jar)
  unfolding drop_least_used
  drop_least_used-Holds ks excess jar h = drop-Holds _ jar h

  pub trim_groups-Holds :
      (groups : List (Text × List Key)) (jar : Jar) → Holds P jar → Holds P (trim_groups groups jar)
  unfolding trim_groups
  trim_groups-Holds [] jar h = h
  trim_groups-Holds ((domain, ks) ∷ groups) jar h =
      trim_groups-Holds groups _
        (drop_least_used-Holds ks (length ks - max_cookies_per_domain) jar h)

  pub evict-Holds : (now : DateTime) (jar : Jar) → Holds P jar → Holds P (evict now jar)
  unfolding evict trim_all
  evict-Holds now jar h =
      drop_least_used-Holds _ _ _ (trim_groups-Holds _ _ (drop_expired-Holds now jar h))

  pub merge-Holds :
      (now : DateTime) (cs : List StoredCookie) (jar : Jar)
      → All P cs
      → Holds P jar
      → Holds P (merge now cs jar)
  unfolding merge
  merge-Holds now [] jar a h = h
  merge-Holds now (c ∷ cs) jar a h = elim (Bool-cases (is_expired c now)) [
    | inl e ↦ ground (arith, merge-Holds now cs jar a.1 h)
    | inr e ↦ ground (arith, merge-Holds now cs (keep jar c) a.1 (keep-Holds jar c a.0 h))
  ]

-- ===== src/Redis/Memory.antt =====
-- A server in memory: the laws of `Redis` can be met, and tests run against it.
use rate_guardian.Base.{
  ℕ, ◌+◌, ◌≡◌, refl, String, Option, none, some, leb_ℤ, not, select, ◌==◌, if◌then◌else◌,
}
use rate_guardian.Redis.Keys.{StringKey, key_eq}
use rate_guardian.Redis.Cells.{
  int, StringCell, ZsetCell, vacant, vacant_zset, count_of, put_member, keep_members, age_string,
  age_zset, set_ttl, Redis,
}

pub record Memory : Type 0 where
  pub strings : StringKey → StringCell
  pub zsets : String → ZsetCell

abbrev write : Memory → StringKey → StringCell → Memory
write m k c = record m { strings = λ j. if key_eq k j then c else m.strings j }

abbrev write_zset : Memory → String → ZsetCell → Memory
write_zset m k c = record m { zsets = λ z. if k == z then c else m.zsets z }

-- INCR of what is no number fails in Redis; here it starts afresh.
abbrev next_count : Option ℕ → ℕ
next_count none = 1
next_count (some n) = n + 1

abbrev pub incr : Memory → StringKey → ℕ × Memory
incr m k =
    let n = next_count (count_of (m.strings k).value) in
    (n, write m k (record { value = some (int n); ttl = (m.strings k).ttl }))

pub reply-incr :
    (m : Memory) (k : StringKey) (n : ℕ)
    → count_of (m.strings k).value ≡ some n
    → (incr m k).0 ≡ n + 1
reply-incr m k n h = rw h

pub strings-incr :
    (m : Memory) (k : StringKey) (n : ℕ)
    → count_of (m.strings k).value ≡ some n
    → (j : StringKey)
    → (incr m k).1.strings j ≡ (
        if key_eq k j
        then record { value = some (int (n + 1)); ttl = (m.strings k).ttl }
        else m.strings j)
strings-incr m k n h j = rw h

abbrev pub memory : Redis
memory = record {
  State = Memory;
  strings = λ m. m.strings;
  zsets = λ m. m.zsets;
  set = λ m k v. write m k (record { value = some v; ttl = none });
  setex = λ m k secs v. write m k (record { value = some v; ttl = some secs });
  incr = incr;
  delete = λ m k. write m k vacant;
  zremrangebyscore = λ m k most.
      write_zset m k
        (keep_members (select (λ x. not (leb_ℤ x most)) (m.zsets k).members) (m.zsets k).ttl);
  zadd =
      λ m k t. write_zset m k (record (m.zsets k) { members = put_member t (m.zsets k).members });
  expire = λ m k ttl. write_zset m k (set_ttl ttl (m.zsets k).members);
  elapse = λ m d. record {
    strings = λ j. age_string d (m.strings j);
    zsets = λ z. age_zset d (m.zsets z);
  };
  strings-set = λ m k v j. refl;
  zsets-set = λ m k v z. refl;
  strings-setex = λ m k secs v j. refl;
  zsets-setex = λ m k secs v z. refl;
  reply-incr = reply-incr;
  strings-incr = strings-incr;
  zsets-incr = λ m k z. refl;
  strings-delete = λ m k j. refl;
  zsets-delete = λ m k z. refl;
  zsets-zremrangebyscore = λ m k most z. refl;
  strings-zremrangebyscore = λ m k most j. refl;
  zsets-zadd = λ m k t z. refl;
  strings-zadd = λ m k t j. refl;
  zsets-expire = λ m k ttl z. refl;
  strings-expire = λ m k ttl j. refl;
  strings-elapse = λ m d j. refl;
  zsets-elapse = λ m d z. refl;
}

abbrev pub empty : Memory
empty = record { strings = λ k. vacant; zsets = λ k. vacant_zset }

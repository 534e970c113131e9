-- ===== src/Pgsql/Decoding/Samples.antt =====
-- A table, and rows of it as they are sent.
use nendi.Common.{
  ℕ, ◌≡◌, refl, arith, true, false, some, List, [], ◌∷◌, nat_eq, insert, lookup, length, is_utf8,
  codes,
}
use nendi.Pgsql.Decoding.Wire.{WireValue, null, textual, binary, IsTuple, IsRelation}
use nendi.Pgsql.Decoding.{ReplicaIdentity, RelationInfo, Relations}

abbrev pub column_count : RelationInfo → ℕ
column_count rel = length rel.columns

abbrev pub accounts : RelationInfo
accounts = record {
  schema = codes "public";
  table = codes "accounts";
  columns =
      record { name = codes "id"; type_oid = 23; is_key = true }
      ∷ (record { name = codes "photo"; type_oid = 17; is_key = false } ∷ []);
  replica_identity = ReplicaIdentity.full;
}

-- No modifier, and one.
abbrev pub modifiers : List ℕ
modifiers = 0xffff_ffff ∷ (20 ∷ [])

abbrev pub known : Relations
known = insert 16385 accounts []

abbrev pub old_cells : List WireValue
old_cells = textual (codes "7") ∷ (null ∷ [])

abbrev pub new_values : List WireValue
new_values = textual (codes "7") ∷ (binary (0xde ∷ (0xad ∷ [])) ∷ [])

pub accounts-IsRelation : IsRelation accounts modifiers
unfolding is_utf8
accounts-IsRelation = record {
  schema = (
    refl,
    (
      (λ e. omega arith),
      (
        (λ e. omega arith),
        ((λ e. omega arith), ((λ e. omega arith), ((λ e. omega arith), ((λ e. omega arith), tt)))),
      ),
    ),
  );
  table = (
    refl,
    (
      (λ e. omega arith),
      (
        (λ e. omega arith),
        (
          (λ e. omega arith),
          (
            (λ e. omega arith),
            (
              (λ e. omega arith),
              ((λ e. omega arith), ((λ e. omega arith), ((λ e. omega arith), tt))),
            ),
          ),
        ),
      ),
    ),
  );
  columns = (
    record {
      name = (refl, ((λ e. omega arith), ((λ e. omega arith), tt)));
      type_oid = omega arith;
    },
    (
      record {
        name = (
          refl,
          (
            (λ e. omega arith),
            (
              (λ e. omega arith),
              ((λ e. omega arith), ((λ e. omega arith), ((λ e. omega arith), tt))),
            ),
          ),
        );
        type_oid = omega arith;
      },
      tt,
    ),
  );
  few = omega arith;
  as_many = refl;
  modifiers_fit = (omega arith, (omega arith, tt));
}

pub old_row-IsTuple : IsTuple accounts.columns old_cells
unfolding is_utf8
old_row-IsTuple = record {
  values = ((refl, omega arith), (tt, tt));
  as_many = refl;
  few = omega arith;
}

pub new_values-IsTuple : IsTuple accounts.columns new_values
unfolding is_utf8
new_values-IsTuple = record {
  values = ((refl, omega arith), (omega arith, tt));
  as_many = refl;
  few = omega arith;
}

pub is_known : lookup 16385 known ≡ some accounts
unfolding lookup insert
is_known = refl

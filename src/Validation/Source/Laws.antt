-- ===== src/Validation/Source/Laws.antt =====
-- What a data source is that `_datasource` accepts.
use tributo_knova.Prelude.{ℕ, String, true, ◌≡◌, ◌≤◌, elem, arith}
use tributo_knova.Python.Number.{ℤ, pos, negsuc, int_leb}
use tributo_knova.Python.Value.{Value, Dict, object, integer, string, get}
use tributo_knova.Python.Result.{ok, from_ok}
use tributo_knova.Validation.Fields.{require, obj, enum, int, texts}
use tributo_knova.Validation.Fields.Laws.{require-eq-ok, obj-eq-ok, enum-eq-ok, int-eq-ok}
use tributo_knova.Validation.Source.{source_types, datasource}

-- An accepted source is an object of a known type, with a host, a database and a port that fits
-- sixteen bits.
pub record IsDatasource {F : Type 0} (v : Value F) : Type 0 where
  pub d : Dict F
  pub is_object : v ≡ object d
  pub kind : String
  pub has_kind : get d "type" ≡ string kind
  pub known : elem kind source_types ≡ true
  pub port : ℕ
  pub has_port : get d "port" ≡ integer (pos port)
  pub lowest : 1 ≤ port
  pub highest : port ≤ 65535

accepted :
    {F : Type 0} (v : Value F) (d : Dict F) (kind : String) (port : ℤ)
    → v ≡ object d
    → (get d "type" ≡ string kind) × (elem kind source_types ≡ true)
    → (get d "port" ≡ integer port) × (int_leb (pos 1) port ≡ true)
    → int_leb port (pos 65535) ≡ true
    → IsDatasource v
accepted v d kind (negsuc n) o k p m = cc
accepted v d kind (pos n) o k p m = record {
  d = d;
  is_object = o;
  kind = kind;
  has_kind = k.0;
  known = k.1;
  port = n;
  has_port = p.0;
  lowest = ground arith;
  highest = ground arith;
}

-- A data source that is accepted is an object of one of the known types, and its port is an integer
-- from 1 to 65535.
pub IsDatasource-datasource :
    {F : Type 0} (v : Value F) (place : String) → datasource v place ≡ ok tt → IsDatasource v
unfolding datasource
IsDatasource-datasource v place h = from_ok (obj v _) _ h λ d e1 h1.
    from_ok (enum (get d "type") _ _) _ h1 λ kind e2 h2. from_ok (texts d _ _) _ h2 λ _ _ h3.
      from_ok (int (get d "port") _ 1) _ h3 λ port e4 h4.
        from_ok (require (int_leb port (pos 65535)) _ _) _ h4 λ _ e5 _.
          accepted v d kind port (obj-eq-ok v _ e1) (enum-eq-ok (get d "type") _ _ e2)
            (int-eq-ok (get d "port") _ 1 e4) (require-eq-ok (int_leb port (pos 65535)) _ _ e5)

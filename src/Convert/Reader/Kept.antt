-- ===== src/Convert/Reader/Kept.antt =====
-- Reading a value leaves no object but the texts that the result owns.
use ladybug_python.Base.{Bool, true, false, Option, none, some}
use ladybug_python.Text.{Text}
use ladybug_python.Convert.{Cell, Cells, Props, Fields, Pairs, fallback, as_key}
use ladybug_python.Convert.Rendered.{Assignments, Parsers}
use ladybug_python.Convert.Reader.{
  finish_fields, read_value, read_each, read_props, read_fields, read_pairs,
}
use ladybug_python.Convert.Reader.Steps.{
  Keeps, Keeps-pure, Keeps-raise, Keeps-lift, Keeps-scoped, Keeps-bind, Keeps-adopted,
  Keeps-recovering,
}
use ladybug_python.Convert

-- The library gives the value of each entry of a map whose key it gave.
unfoldable mutual
  pub HasValues : Cell → Type 0
  HasValues (Convert.list cs) = EachHasValues cs
  HasValues (Convert.node id label ps) = HasValues id × HasValues label × PropsHaveValues ps
  HasValues (Convert.rel id src dst label ps) =
      HasValues id × HasValues src × HasValues dst × HasValues label × PropsHaveValues ps
  HasValues (Convert.recursive_rel nodes rels) = HasValues nodes × HasValues rels
  HasValues (Convert.struct fs text) = FieldsHaveValues fs
  HasValues (Convert.map ps) = PairsHaveValues ps
  HasValues c = Unit

  pub EachHasValues : Cells → Type 0
  EachHasValues (Convert.cons c cs) = HasValues c × EachHasValues cs
  EachHasValues cs = Unit

  pub PropsHaveValues : Props → Type 0
  PropsHaveValues (Convert.prop key i c text ps) = HasValues c × PropsHaveValues ps
  PropsHaveValues ps = Unit

  pub FieldsHaveValues : Fields → Type 0
  FieldsHaveValues (Convert.field key c fs) = HasValues c × FieldsHaveValues fs
  FieldsHaveValues fs = Unit

  pub PairsHaveValues : Pairs → Type 0
  PairsHaveValues (Convert.pair k c ps) = HasValues k × HasValues c × PairsHaveValues ps
  PairsHaveValues (Convert.no_value m) = ⊥
  PairsHaveValues ps = Unit

module _ (parsers : Parsers) where
  finish_fields-Keeps :
      (text : Text) (d : Option Assignments) → Keeps (finish_fields parsers text d)
  finish_fields-Keeps text none = Keeps-adopted (Keeps-pure _)
  finish_fields-Keeps text (some d) = Keeps-pure _

  mutual
    unfolding read_value HasValues

    pub read_value-Keeps : (c : Cell) → HasValues c → Keeps (read_value parsers c)
    read_value-Keeps Convert.null h = Keeps-pure _
    read_value-Keeps (Convert.string t) h = Keeps-scoped 1 (Keeps-adopted (Keeps-pure _))
    read_value-Keeps (Convert.uuid t) h = Keeps-scoped 1 (Keeps-adopted (Keeps-pure _))
    read_value-Keeps (Convert.decimal t) h = Keeps-scoped 1 (Keeps-adopted (Keeps-pure _))
    read_value-Keeps (Convert.blob t) h = Keeps-scoped 1 (Keeps-adopted (Keeps-pure _))
    read_value-Keeps (Convert.unsized_list t) h = Keeps-scoped 1 (Keeps-adopted (Keeps-pure _))
    read_value-Keeps (Convert.other t) h = Keeps-scoped 1 (Keeps-adopted (Keeps-pure _))
    read_value-Keeps (Convert.failing t) h = Keeps-scoped 1 (Keeps-raise _)
    read_value-Keeps (Convert.list cs) h =
        Keeps-scoped 1 (Keeps-bind (read_each-Keeps cs h) λ vs. Keeps-pure _)
    read_value-Keeps (Convert.node id label ps) (a, b, c) = Keeps-scoped 1 (
        Keeps-bind
          (Keeps-scoped 2 (
            Keeps-bind (read_value-Keeps id a)
              λ i. Keeps-bind (read_value-Keeps label b) λ l. Keeps-pure _))
          λ x. Keeps-bind (read_props-Keeps true ps c) λ d. Keeps-pure _)
    read_value-Keeps (Convert.rel id src dst label ps) (a, b, c, d, e) = Keeps-scoped 1 (
        Keeps-bind
          (Keeps-scoped 4 (
            Keeps-bind (read_value-Keeps id a) λ i. Keeps-bind (read_value-Keeps src b) λ s.
              Keeps-bind (read_value-Keeps dst c)
                λ t. Keeps-bind (read_value-Keeps label d) λ l. Keeps-pure _))
          λ x. Keeps-bind (read_props-Keeps false ps e) λ d. Keeps-pure _)
    read_value-Keeps (Convert.recursive_rel nodes rels) (a, b) = Keeps-scoped 1 (
        Keeps-scoped 2 (
          Keeps-bind (read_value-Keeps nodes a)
            λ ns. Keeps-bind (read_value-Keeps rels b) λ rs. Keeps-pure _))
    read_value-Keeps (Convert.struct fs text) h =
        Keeps-scoped 1 (Keeps-bind (read_fields-Keeps fs h) λ d. finish_fields-Keeps text d)
    read_value-Keeps (Convert.map ps) h =
        Keeps-scoped 1 (Keeps-bind (read_pairs-Keeps ps h) λ d. Keeps-pure _)
    read_value-Keeps (Convert.no_parts n m) h = Keeps-scoped 1 (Keeps-scoped n (Keeps-raise _))
    read_value-Keeps c h = Keeps-scoped 1 (Keeps-lift _)

    pub read_each-Keeps : (cs : Cells) → EachHasValues cs → Keeps (read_each parsers cs)
    read_each-Keeps Convert.nil h = Keeps-pure _
    read_each-Keeps (Convert.no_element m) h = Keeps-raise _
    read_each-Keeps (Convert.cons c cs) (a, b) =
        Keeps-bind (Keeps-scoped 1 (read_value-Keeps c a))
          λ v. Keeps-bind (read_each-Keeps cs b) λ vs. Keeps-pure _

    read_props-Keeps :
        (b : Bool) (ps : Props) → PropsHaveValues ps → Keeps (read_props parsers b ps)
    read_props-Keeps b Convert.last h = Keeps-pure _
    read_props-Keeps b (Convert.no_name m) h = Keeps-raise _
    read_props-Keeps b (Convert.no_data m) h = Keeps-adopted (Keeps-raise _)
    read_props-Keeps b (Convert.prop key (some (months, days, micros)) c text ps) (a, h) =
        Keeps-adopted (
          Keeps-bind (Keeps-scoped 1 (Keeps-lift _))
            λ i. Keeps-bind (read_props-Keeps b ps h) λ d. Keeps-pure _)
    read_props-Keeps b (Convert.prop key none c text ps) (a, h) = Keeps-adopted (
        Keeps-bind
          (Keeps-scoped 1 (Keeps-recovering (fallback parsers b key text) (read_value-Keeps c a)))
          λ v. Keeps-bind (read_props-Keeps b ps h) λ d. Keeps-pure _)

    read_fields-Keeps : (fs : Fields) → FieldsHaveValues fs → Keeps (read_fields parsers fs)
    read_fields-Keeps Convert.end h = Keeps-pure _
    read_fields-Keeps (Convert.no_field m) h = Keeps-raise _
    read_fields-Keeps (Convert.unread key) h = Keeps-adopted (Keeps-pure _)
    read_fields-Keeps (Convert.field key c fs) (a, h) = Keeps-adopted (
        Keeps-bind (Keeps-scoped 1 (read_value-Keeps c a))
          λ v. Keeps-bind (read_fields-Keeps fs h) λ d. Keeps-pure _)

    read_pairs-Keeps : (ps : Pairs) → PairsHaveValues ps → Keeps (read_pairs parsers ps)
    read_pairs-Keeps Convert.done h = Keeps-pure _
    read_pairs-Keeps (Convert.no_key m) h = Keeps-raise _
    read_pairs-Keeps (Convert.no_value m) h = absurd h
    read_pairs-Keeps (Convert.pair k c ps) (a, b, h) =
        Keeps-bind
          (Keeps-scoped 2 (
            Keeps-bind (read_value-Keeps c b) λ v.
              Keeps-bind (read_value-Keeps k a)
                λ k'. Keeps-bind (Keeps-lift (as_key k')) λ key. Keeps-pure _))
          λ x. Keeps-bind (read_pairs-Keeps ps h) λ d. Keeps-pure _

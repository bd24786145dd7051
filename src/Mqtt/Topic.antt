-- ===== src/Mqtt/Topic.antt =====
-- The levels of the topics: the identifiers that come from outside cannot add or replace a level.
use gridex_edge_gateway.Prelude.{
  ℕ, List, ◌∷◌, ◌++◌, ◌≡◌, [], false, if◌then◌else◌, Bool-cases, ap, ◌∙◌, ◌==◌, sym, refl, inl,
  append-nil, inr, arith, append_assoc, Bool, not, true, length, ◌||◌, ◌&&◌, ◌⊎◌,
}
use gridex_edge_gateway.Prelude.Text.{codes}
use gridex_edge_gateway.Mqtt.{has_special, topic_part, EdgeHealthMessage, health_payload}
use gridex_edge_gateway.Mqtt.Publish.{
  health_topic, Publish, is_empty, publish_health, MqttHealthPublisher, connected,
}
use gridex_edge_gateway.Double.{Double}

-- The levels of a topic, between its slashes.
unfoldable pub levels : List ℕ → List ℕ → List (List ℕ)
levels start [] = start ∷ []
levels start (c ∷ text) =
    let next = levels [] text in
    let same = levels (start ++ (c ∷ [])) text in if c == 47 then start ∷ next else same

levels-append :
    (start before rest : List ℕ)
    → levels start (before ++ (47 ∷ rest)) ≡ levels start before ++ levels [] rest
unfolding levels
levels-append start [] rest = refl
levels-append start (c ∷ before) rest = elim (Bool-cases (c == 47)) [
  | inl e ↦ rw e (ap (λ t. start ∷ t) (levels-append [] before rest))
  | inr e ↦ rw e (levels-append (start ++ (c ∷ [])) before rest)
]

-- A part without a special character is one level.
levels-part :
    (start part : List ℕ) → has_special part ≡ false → levels start part ≡ (start ++ part) ∷ []
unfolding levels has_special
levels-part start [] e = ap (λ t. t ∷ []) (sym (append-nil start))
levels-part start (c ∷ part) e =
    let inside : (c == 47) ≡ false = ground (arith, e) in
    let rest : has_special part ≡ false = ground (arith, e) in
    rw inside (
      levels-part (start ++ (c ∷ [])) part rest
      ∙ ap (λ t. t ∷ []) (append_assoc start (c ∷ []) part))

level_before :
    (part rest : List ℕ)
    → has_special part ≡ false
    → levels [] (part ++ (47 ∷ rest)) ≡ part ∷ levels [] rest
level_before part rest e =
    levels-append [] part rest ∙ ap (λ t. t ++ levels [] rest) (levels-part [] part e)

health_topic-levels :
    (prefix site gateway : List ℕ)
    → has_special site ≡ false
    → has_special gateway ≡ false
    → levels [] (health_topic prefix site gateway)
      ≡ levels [] prefix ++ (codes "sites" ∷ site ∷ codes "edge" ∷ gateway ∷ codes "health" ∷ [])
unfolding health_topic has_special
health_topic-levels prefix site gateway es eg =
    levels-append [] prefix _
    ∙ ap (λ t. levels [] prefix ++ t)
        (level_before (codes "sites") _ refl
          ∙ ap (λ t. codes "sites" ∷ t)
              (level_before site _ es
                ∙ ap (λ t. site ∷ t)
                    (level_before (codes "edge") _ refl
                      ∙ ap (λ t. codes "edge" ∷ t)
                          (level_before gateway (codes "health") eg
                            ∙ ap (λ t. gateway ∷ t) (levels-part [] (codes "health") refl)))))

-- An identifier that is one level: not empty, and without b'/', b'+' and b'#'.
abbrev pub is_level : List ℕ → Bool
is_level text = not (is_empty text) && not (has_special text)

topic_part-level : (text : List ℕ) → is_level text ≡ true → topic_part text ≡ text
unfolding topic_part
topic_part-level text e =
    let regular : (length text == 0 || has_special text) ≡ false = ground (arith, e) in
    rw regular refl

topic_part-refused : (text : List ℕ) → is_level text ≡ false → topic_part text ≡ []
unfolding topic_part
topic_part-refused text e =
    let special : (length text == 0 || has_special text) ≡ true = ground (arith, e) in
    rw special refl

module _ {S : Type 0} (publish : Publish S) (timestamp : ℕ → List ℕ)
    (show_double : Double → List ℕ) where
  published :
      (now : ℕ) (message : EdgeHealthMessage) (publisher : MqttHealthPublisher) (s : S)
      (site gateway up : Bool)
      → is_level message.site_id ≡ site
      → is_level message.gateway_id ≡ gateway
      → connected publisher ≡ up
      → publish_health publish timestamp show_double now message publisher s ≡ (
          if up && site && gateway
          then publish
              (health_topic publisher.config.topic_prefix message.site_id message.gateway_id)
              (health_payload timestamp show_double now message)
              true
              s
          else (false, s))
  unfolding publish_health
  published now message publisher s site gateway false es eg ec = rw ec refl
  published now message publisher s false gateway true es eg ec =
      rw (ec, topic_part-refused message.site_id es) refl
  published now message publisher s true false true es eg ec =
      let some_text : is_empty message.site_id ≡ false = ground (arith, es) in
      rw
        (
          ec,
          topic_part-level message.site_id es,
          topic_part-refused message.gateway_id eg,
          some_text,
        )
        refl
  published now message publisher s true true true es eg ec =
      let some_text : is_empty message.site_id ≡ false = ground (arith, es) in
      let other_text : is_empty message.gateway_id ≡ false = ground (arith, eg) in
      rw
        (
          ec,
          topic_part-level message.site_id es,
          topic_part-level message.gateway_id eg,
          some_text,
          other_text,
        )
        refl

  -- Health is published while connected and where both identifiers are one level each, retained,
  -- under the topic whose levels are those of the prefix and then sites, the site, edge, the
  -- gateway, health; otherwise nothing is published, and the answer is false.
  pub publish_health_lem :
      (now : ℕ) (message : EdgeHealthMessage) (publisher : MqttHealthPublisher) (s : S)
      → let prefix = publisher.config.topic_prefix in
        let topic = health_topic prefix message.site_id message.gateway_id in
        let payload = health_payload timestamp show_double now message in
        (publish_health publish timestamp show_double now message publisher s ≡ (
          if connected publisher && is_level message.site_id && is_level message.gateway_id
          then publish topic payload true s
          else (false, s)))
        × ((is_level message.site_id && is_level message.gateway_id ≡ false)
            ⊎ (levels [] topic
                ≡ levels [] prefix
                  ++ (codes "sites"
                      ∷ message.site_id
                      ∷ codes "edge"
                      ∷ message.gateway_id
                      ∷ codes "health"
                      ∷ [])))
  publish_health_lem now message publisher s = (
    published now message publisher s (is_level message.site_id) (is_level message.gateway_id)
        (connected publisher) refl refl refl,
    (elim (Bool-cases (is_level message.site_id && is_level message.gateway_id)) [
      | inl e ↦ inr (
          health_topic-levels publisher.config.topic_prefix message.site_id message.gateway_id
            (ground (arith, e)) (ground (arith, e)))
      | inr e ↦ inl e
    ]),
  )

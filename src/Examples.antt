-- ===== src/Examples.antt =====
-- Runs of the models on concrete inputs, and the theorems at inputs that meet their hypotheses.
mod TextCoding
mod Tables
mod Arrays
mod Binary
mod Files
mod Writer
mod Serializer
mod NodeTree
mod PairTree
mod Dictionary
mod XmlText
mod JsonText
mod Numbers
mod OpenStep
